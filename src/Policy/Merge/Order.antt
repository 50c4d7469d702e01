-- ===== src/Policy/Merge/Order.antt =====
-- The `less` of MergeAndPrioritize (pkg/policy/compiler.go) is a strict weak order, and the sort
-- puts the rules in it.
use coordino.Base.{
  ◌≡◌, refl, ◌⊎◌, inl, inr, true, false, List, [], ◌∷◌, arith, Bytes, bytes_ltb, Bool-cases,
}
use coordino.Policy.Rules.{PolicyRule, less}
use coordino.Policy.Merge.{insert_rule, sort_rules}

bytes_ltb_asymm : (xs ys : Bytes) → bytes_ltb xs ys ≡ true → bytes_ltb ys xs ≡ false
unfolding bytes_ltb
bytes_ltb_asymm [] [] h = cc
bytes_ltb_asymm [] (y ∷ ys) h = refl
bytes_ltb_asymm (x ∷ xs) [] h = cc
bytes_ltb_asymm (x ∷ xs) (y ∷ ys) h = ground (arith, bytes_ltb_asymm xs ys)

bytes_le_trans :
    (xs ys zs : Bytes) → bytes_ltb ys xs ≡ false → bytes_ltb zs ys ≡ false → bytes_ltb zs xs ≡ false
unfolding bytes_ltb
bytes_le_trans [] ys [] p q = refl
bytes_le_trans [] ys (z ∷ zs) p q = refl
bytes_le_trans (x ∷ xs) [] zs p q = cc
bytes_le_trans (x ∷ xs) (y ∷ ys) [] p q = cc
bytes_le_trans (x ∷ xs) (y ∷ ys) (z ∷ zs) p q = ground (arith, bytes_le_trans xs ys zs)

pub less_asymm : (a b : PolicyRule) → less a b ≡ true → less b a ≡ false
unfolding less
less_asymm a b h = ground (arith, bytes_ltb_asymm a.policy_name b.policy_name)

-- `b` does not come before `a`, `c` not before `b`: then `c` does not come before `a`.
pub less_trans : (a b c : PolicyRule) → less b a ≡ false → less c b ≡ false → less c a ≡ false
unfolding less
less_trans a b c p q = ground (arith, bytes_le_trans a.policy_name b.policy_name c.policy_name)

abbrev pub NoneBefore : PolicyRule → List PolicyRule → Type 0
NoneBefore r [] = Unit {0}
NoneBefore r (x ∷ xs) = (less x r ≡ false) × NoneBefore r xs

abbrev pub IsSorted : List PolicyRule → Type 0
IsSorted [] = Unit {0}
IsSorted (x ∷ xs) = NoneBefore x xs × IsSorted xs

NoneBefore-trans :
    (r x : PolicyRule) (xs : List PolicyRule) → less x r ≡ false → NoneBefore x xs → NoneBefore r xs
NoneBefore-trans r x [] h p = tt
NoneBefore-trans r x (y ∷ ys) h p = (less_trans r x y h p.0, NoneBefore-trans r x ys h p.1)

insert_rule-NoneBefore :
    (x r : PolicyRule) (xs : List PolicyRule)
    → less r x ≡ false
    → NoneBefore x xs
    → NoneBefore x (insert_rule r xs)
unfolding insert_rule
insert_rule-NoneBefore x r [] h p = (h, tt)
insert_rule-NoneBefore x r (y ∷ ys) h p = ground (arith, insert_rule-NoneBefore x r ys h p.1)

insert_rule-IsSorted :
    (r : PolicyRule) (xs : List PolicyRule) → IsSorted xs → IsSorted (insert_rule r xs)
unfolding insert_rule
insert_rule-IsSorted r [] s = (tt, tt)
insert_rule-IsSorted r (x ∷ xs) s = elim (Bool-cases (less x r)) [
  | inl e ↦
      rw e (insert_rule-NoneBefore x r xs (less_asymm x r e) s.0, insert_rule-IsSorted r xs s.1)
  | inr e ↦ rw e ((e, NoneBefore-trans r x xs e s.0), s)
]

pub sort_rules-IsSorted : (rs : List PolicyRule) → IsSorted (sort_rules rs)
unfolding sort_rules
sort_rules-IsSorted [] = tt
sort_rules-IsSorted (r ∷ rs) = insert_rule-IsSorted r (sort_rules rs) (sort_rules-IsSorted rs)

-- Membership, as a path to the place.
abbrev pub In : PolicyRule → List PolicyRule → Type 0
In r [] = ⊥
In r (x ∷ xs) = (r ≡ x) ⊎ In r xs

insert_rule-In :
    (q r : PolicyRule) (xs : List PolicyRule) → (q ≡ r) ⊎ In q xs → In q (insert_rule r xs)
unfolding insert_rule
insert_rule-In q r [] h = h
insert_rule-In q r (x ∷ xs) (inl e) = elim (Bool-cases (less x r)) [
  | inl t ↦ rw t (inr (insert_rule-In q r xs (inl e)))
  | inr t ↦ rw t (inl e)
]
insert_rule-In q r (x ∷ xs) (inr (inl e)) = elim (Bool-cases (less x r)) [
  | inl t ↦ rw t (inl e)
  | inr t ↦ rw t (inr (inl e))
]
insert_rule-In q r (x ∷ xs) (inr (inr m)) = elim (Bool-cases (less x r)) [
  | inl t ↦ rw t (inr (insert_rule-In q r xs (inr m)))
  | inr t ↦ rw t (inr (inr m))
]

In-insert_rule :
    (q r : PolicyRule) (xs : List PolicyRule) → In q (insert_rule r xs) → (q ≡ r) ⊎ In q xs
unfolding insert_rule
In-insert_rule q r [] h = h
In-insert_rule q r (x ∷ xs) h = elim (Bool-cases (less x r)) [
  | inl t ↦ moved (In-insert_rule q r xs) (rw t at h)
  | inr t ↦ rw t at h
]
  where
    moved :
        (In q (insert_rule r xs) → (q ≡ r) ⊎ In q xs)
        → (q ≡ x) ⊎ In q (insert_rule r xs)
        → (q ≡ r) ⊎ In q (x ∷ xs)
    moved ih (inl e) = inr (inl e)
    moved ih (inr m) = elim (ih m) [ inl e ↦ inl e | inr n ↦ inr (inr n) ]

-- The sort neither drops a rule nor makes one up.
pub sort_rules-In : (q : PolicyRule) (rs : List PolicyRule) → In q rs → In q (sort_rules rs)
unfolding sort_rules
sort_rules-In q [] h = h
sort_rules-In q (r ∷ rs) (inl e) = insert_rule-In q r (sort_rules rs) (inl e)
sort_rules-In q (r ∷ rs) (inr m) = insert_rule-In q r (sort_rules rs) (inr (sort_rules-In q rs m))

pub In-sort_rules : (q : PolicyRule) (rs : List PolicyRule) → In q (sort_rules rs) → In q rs
unfolding sort_rules
In-sort_rules q [] h = h
In-sort_rules q (r ∷ rs) h = elim (In-insert_rule q r (sort_rules rs) h) [
  | inl e ↦ inl e
  | inr m ↦ inr (In-sort_rules q rs m)
]
