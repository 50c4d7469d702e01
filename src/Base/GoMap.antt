-- ===== src/Base/GoMap.antt =====
-- Go's `map[K]V` as an association list: one list is one of the orders in which `range` may visit
-- the entries. An insertion replaces in place or goes to the end.
use Prim.Native.Nat.{◌+◌}
use mathlib.Core.Path.{◌≡◌, refl}
use mathlib.Core.Option.{Option, none, some}
use mathlib.Core.List.{List, [], ◌∷◌}
use native.Mathlib.Omega.{arith}
use coordino.Base.Tests.{Eq, ◌==◌, if◌then◌else◌, beq_refl}
use coordino.Base.Lists.{length, any}
use mathlib.Core.Logic.{inl, inr}
use mathlib.Core.Bool.{Bool, true, false}
use mathlib.Core.Path.{ap, ap₂, sym}
use coordino.Base.Tests.{Bool-cases, eq_of_beq}

abbrev pub GoMap {ℓ κ} : Type ℓ → Type κ → Type (ℓ ⊔ κ)
GoMap K V = List (K × V)

module _ {ℓ κ} {K : Type ℓ} {V : Type κ} ⦃e : Eq K⦄ where
  unfoldable pub lookup : K → GoMap K V → Option V
  lookup k [] = none
  lookup k ((i, v) ∷ rest) = if i == k then some v else lookup k rest

  unfoldable pub insert : K → V → GoMap K V → GoMap K V
  insert k v [] = (k, v) ∷ []
  insert k v ((i, old) ∷ rest) = if i == k then (k, v) ∷ rest else (i, old) ∷ insert k v rest

  unfoldable pub delete : K → GoMap K V → GoMap K V
  delete k [] = []
  delete k ((j, w) ∷ m) = let rest = delete k m in if j == k then rest else (j, w) ∷ rest

  -- No key occurs twice.
  abbrev pub Distinct : GoMap K V → Type κ
  Distinct [] = Unit {κ}
  Distinct ((k, v) ∷ m) = (lookup k m ≡ none) × Distinct m

module _ {ℓ κ} {K : Type ℓ} {V : Type κ} ⦃e : Eq K⦄ where
  pub lookup-insert :
      (k j : K) (v : V) (m : GoMap K V)
      → lookup j (insert k v m) ≡ (if k == j then some v else lookup j m)
  unfolding insert lookup
  lookup-insert k j v [] = ground arith
  lookup-insert k j v ((i, old) ∷ rest) =
      ground (arith, lookup-insert k j v rest, e.beq_iff i j, e.beq_iff i k, e.beq_iff k j)

  pub lookup-delete :
      (k j : K) (m : GoMap K V) → lookup j (delete k m) ≡ (if k == j then none else lookup j m)
  unfolding lookup delete
  lookup-delete k j [] = ground arith
  lookup-delete k j ((i, w) ∷ m) =
      ground (arith, e.beq_iff k j, e.beq_iff i k, e.beq_iff i j, lookup-delete k j m)

  pub lookup-insert_self : (k : K) (v : V) (m : GoMap K V) → lookup k (insert k v m) ≡ some v
  lookup-insert_self k v m = rw (lookup-insert, beq_refl k)

  -- An entry under a new key hides no other entry.
  pub insert_keeps :
      (j k : K) (v w : V) (m : GoMap K V)
      → lookup j m ≡ none
      → lookup k m ≡ some w
      → lookup k (insert j v m) ≡ some w
  insert_keeps j k v w m fresh h =
      ground (arith, lookup-insert j k v m, e.beq_iff j k, λ (x : j ≡ k). ap (λ i. lookup i m) x)

  pub insert-Distinct : (k : K) (v : V) (m : GoMap K V) → Distinct m → Distinct (insert k v m)
  unfolding insert lookup
  insert-Distinct k v [] d = (refl, tt)
  insert-Distinct k v ((i, w) ∷ m) d =
      ground (arith, e.beq_iff i k, e.beq_iff k i, lookup-insert k i v m, insert-Distinct k v m d.1)

  pub delete-Distinct : (k : K) (m : GoMap K V) → Distinct m → Distinct (delete k m)
  unfolding delete lookup
  delete-Distinct k [] d = tt
  delete-Distinct k ((i, w) ∷ m) d = ground (arith, lookup-delete k i m, delete-Distinct k m d.1)

  pub delete_absent : (k : K) (m : GoMap K V) → lookup k m ≡ none → delete k m ≡ m
  unfolding delete lookup
  delete_absent k [] h = refl
  delete_absent k ((i, w) ∷ m) h = ground (arith, delete_absent k m)

  pub length-insert :
      (k : K) (v : V) (m : GoMap K V) → lookup k m ≡ none → length (insert k v m) ≡ length m + 1
  unfolding insert lookup
  length-insert k v [] h = omega arith
  length-insert k v ((i, w) ∷ m) h = ground (arith, length-insert k v m)

  pub length-delete :
      (k : K) {v : V} (m : GoMap K V)
      → Distinct m
      → lookup k m ≡ some v
      → length (delete k m) + 1 ≡ length m
  unfolding delete lookup
  length-delete k [] d h = cc
  length-delete k {v} ((i, w) ∷ m) d h =
      ground (arith, e.beq_iff i k, length-delete k {v = v} m d.1, delete_absent k m)

  pub delete-insert_fresh :
      (k : K) (v : V) (m : GoMap K V) → lookup k m ≡ none → delete k (insert k v m) ≡ m
  unfolding insert delete lookup
  delete-insert_fresh k v [] h = ground (arith, e.beq_iff k k)
  delete-insert_fresh k v ((i, w) ∷ m) h = ground (arith, e.beq_iff i k, delete-insert_fresh k v m)

  -- A test over the entries of a map, read through `lookup`.
  pub any-lookup :
      (p : K × V → Bool) (k : K) (v : V) (m : GoMap K V)
      → lookup k m ≡ some v
      → p (k, v) ≡ true
      → any p m ≡ true
  unfolding lookup
  any-lookup p k v [] h t = cc
  any-lookup p k v ((i, w) ∷ m) h t = elim (Bool-cases (i == k)) [
    | inl here ↦
        let x : i ≡ k = eq_of_beq i k here in
        let y : w ≡ v = ground arith in ground (arith, ap₂ (λ a b. p (a, b)) x y)
    | inr there ↦ ground (arith, any-lookup p k v m)
  ]

  pub any-eq-false :
      (p : K × V → Bool) (m : GoMap K V)
      → Distinct m
      → ((k : K) (v : V) → lookup k m ≡ some v → p (k, v) ≡ false)
      → any p m ≡ false
  unfolding lookup
  any-eq-false p [] d h = refl
  any-eq-false p ((i, w) ∷ m) d h = ground (
    arith,
    h i w (ground (arith, e.beq_iff i i)),
    any-eq-false p m d.1
        (λ k v l. h k v (ground (arith, e.beq_iff i k, λ (x : i ≡ k). ap (λ j. lookup j m) x))),
  )

  pub insert_same : (k : K) (v : V) (m : GoMap K V) → lookup k m ≡ some v → insert k v m ≡ m
  unfolding insert lookup
  insert_same k v [] h = cc
  insert_same k v ((i, w) ∷ m) h = elim (Bool-cases (i == k)) [
    | inl here ↦
        let x : i ≡ k = eq_of_beq i k here in
        let y : w ≡ v = ground arith in rw here (ap₂ (λ a b. (a, b) ∷ m) (sym x) (sym y))
    | inr there ↦ rw there (ap (◌∷◌ (i, w)) (insert_same k v m (ground arith)))
  ]

  pub insert-insert : (k : K) (v w : V) (m : GoMap K V) → insert k w (insert k v m) ≡ insert k w m
  unfolding insert
  insert-insert k v w [] = ground (arith, e.beq_iff k k)
  insert-insert k v w ((i, u) ∷ m) =
      ground (arith, e.beq_iff k k, e.beq_iff i k, insert-insert k v w m)

  -- The entries of a map with distinct keys, seen from its first entry and from the rest.
  pub at_head : (k : K) (v : V) (m : GoMap K V) → lookup k ((k, v) ∷ m) ≡ some v
  unfolding lookup
  at_head k v m = ground (arith, e.beq_iff k k)

  pub at_tail :
      (j k : K) (v : V) {w : V} (m : GoMap K V)
      → lookup j m ≡ none
      → lookup k m ≡ some w
      → lookup k ((j, v) ∷ m) ≡ some w
  unfolding lookup
  at_tail j k v m d h = elim (Bool-cases (j == k)) [
    | inl here ↦ let x = ap (λ i. lookup i m) (eq_of_beq j k here) in ground arith
    | inr there ↦ rw there h
  ]
