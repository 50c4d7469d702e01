-- ===== src/Policy/Merge/Winner.antt =====
-- What MergeAndPrioritize (pkg/policy/compiler.go) keeps: for each key the first rule in the order.
use coordino.Base.{
  ℕ, ◌≤◌, ◌≡◌, refl, sym, ap, subst, ◌∙◌, inl, inr, Bool, true, false, List, [], ◌∷◌, Option, none,
  some, arith, Bytes, bytes_eq, if◌then◌else◌, Bool-cases, ◌==◌, eq_of_beq, beq_refl,
}
use coordino.Base.GoMap.{GoMap, lookup, insert, lookup-insert}
use coordino.Policy.Rules.{PolicyRule, CompiledPolicy, less, rule_key}
use coordino.Policy.Merge.{sort_rules, collect_rules, is_seen, dedup, merge_and_prioritize}
use coordino.Policy.Merge.Order.{
  less_asymm, NoneBefore, IsSorted, sort_rules-IsSorted, In, sort_rules-In, In-sort_rules,
}

-- The first rule of a key.
unfoldable pub first_with : Bytes → List PolicyRule → Option PolicyRule
first_with k [] = none
first_with k (r ∷ rs) = let rest = first_with k rs in if rule_key r == k then some r else rest

is_seen-insert :
    (seen : GoMap Bytes Bool) (key k : Bytes)
    → is_seen (insert key true seen) k ≡ (if key == k then true else is_seen seen k)
unfolding is_seen
is_seen-insert seen key k = ground (arith, lookup-insert key k true seen)

first_with-dedup :
    (k : Bytes) (seen : GoMap Bytes Bool) (rs : List PolicyRule)
    → first_with k (dedup seen rs) ≡ (if is_seen seen k then none else first_with k rs)
unfolding first_with dedup
first_with-dedup k seen [] = ground arith
first_with-dedup k seen (r ∷ rs) = elim (Bool-cases (is_seen seen (rule_key r))) [
  | inl old ↦ rw old (
      ground (
        arith,
        first_with-dedup k seen rs,
        bytes_eq.beq_iff (rule_key r) k,
        λ (e : rule_key r ≡ k). ap (is_seen seen) e,
      ))
  | inr new ↦ rw new (
      ground (
        arith,
        first_with-dedup k (insert (rule_key r) true seen) rs,
        is_seen-insert seen (rule_key r) k,
        bytes_eq.beq_iff (rule_key r) k,
        λ (e : rule_key r ≡ k). ap (is_seen seen) e,
      ))
]

less_irrefl : (r : PolicyRule) → less r r ≡ false
less_irrefl r = elim (Bool-cases (less r r)) [ inl e ↦ less_asymm r r e | inr e ↦ e ]

none_before :
    (x r : PolicyRule) (xs : List PolicyRule) → NoneBefore x xs → In r xs → less r x ≡ false
none_before x r [] p m = elim m [ ]
none_before x r (y ∷ ys) p (inl e) = subst (λ q. less q x ≡ false) (sym e) p.0
none_before x r (y ∷ ys) p (inr m) = none_before x r ys p.1 m

-- In a sorted list the first rule of a key has no rule of that key before it in the order.
first_with_least :
    (r : PolicyRule) (xs : List PolicyRule)
    → IsSorted xs
    → In r xs
    → (w : PolicyRule) × (first_with (rule_key r) xs ≡ some w) × (less r w ≡ false)
unfolding first_with
first_with_least r [] s m = elim m [ ]
first_with_least r (x ∷ xs) s (inl e) = (
  x,
  rw (ap rule_key e, beq_refl (rule_key x)) refl,
  subst (λ q. less q x ≡ false) (sym e) (less_irrefl x),
)
first_with_least r (x ∷ xs) s (inr m) =
    let (w, at, least) = first_with_least r xs s.1 m in
    elim (Bool-cases (rule_key x == rule_key r)) [
      | inl hit ↦ (x, rw hit refl, none_before x r xs s.0 m)
      | inr miss ↦ (w, rw miss at, least)
    ]

first_with-In :
    (k : Bytes) (xs : List PolicyRule) (w : PolicyRule)
    → first_with k xs ≡ some w
    → In w xs × (rule_key w ≡ k)
unfolding first_with
first_with-In k [] w h = absurd (ground arith)
first_with-In k (x ∷ xs) w h = elim (Bool-cases (rule_key x == k)) [
  | inl hit ↦
      let same : w ≡ x = ground arith in (inl same, ap rule_key same ∙ eq_of_beq (rule_key x) k hit)
  | inr miss ↦ let (m, e) = first_with-In k xs w (ground arith) in (inr m, e)
]

less-false→tier : (r w : PolicyRule) → less r w ≡ false → w.tier ≤ r.tier
unfolding less
less-false→tier r w h = ground arith

nothing_seen : (k : Bytes) → is_seen [] k ≡ false
unfolding is_seen lookup
nothing_seen k = refl

-- For every rule of the merged policies, the result has a first rule of the same key. It is one of
-- the rules given, the rule is not less than it in the order of the sort, and its tier is no larger.
pub merge_winner :
    (now version : ℕ) (policies : List (Option CompiledPolicy)) (r : PolicyRule)
    → In r (collect_rules policies)
    → (w : PolicyRule) × (first_with (rule_key r) (merge_and_prioritize now version policies).rules
        ≡ some w)
      × In w (collect_rules policies)
      × (rule_key w ≡ rule_key r)
      × (less r w ≡ false)
      × (w.tier ≤ r.tier)
unfolding merge_and_prioritize
merge_winner now version policies r m =
    let rs = collect_rules policies in
    let (w, at, least) =
      first_with_least r (sort_rules rs) (sort_rules-IsSorted rs) (sort_rules-In r rs m) in
    let (inside, key) = first_with-In (rule_key r) (sort_rules rs) w at in
    (
      w,
      first_with-dedup (rule_key r) [] (sort_rules rs) ∙ rw (nothing_seen (rule_key r)) at,
      In-sort_rules w rs inside,
      key,
      least,
      less-false→tier r w least,
    )

dedup_first :
    (seen : GoMap Bytes Bool) (rs : List PolicyRule) (r : PolicyRule)
    → In r (dedup seen rs)
    → first_with (rule_key r) (dedup seen rs) ≡ some r
unfolding dedup first_with
dedup_first seen [] r m = elim m [ ]
dedup_first seen (x ∷ rs) r m = elim (Bool-cases (is_seen seen (rule_key x))) [
  | inl old ↦ rw old (dedup_first seen rs r (rw old at m))
  | inr new ↦ rw new (head_or_rest (rw new at m) (dedup_first (insert (rule_key x) true seen) rs r))
]
  where
    head_or_rest :
        In r (x ∷ dedup (insert (rule_key x) true seen) rs)
        → (In r (dedup (insert (rule_key x) true seen) rs)
            → first_with (rule_key r) (dedup (insert (rule_key x) true seen) rs) ≡ some r)
        → first_with (rule_key r) (x ∷ dedup (insert (rule_key x) true seen) rs) ≡ some r
    head_or_rest (inl e) ih = rw (ap rule_key e, beq_refl (rule_key x)) (ap some (sym e))
    head_or_rest (inr n) ih = ground (
      arith,
      ih n,
      first_with-dedup (rule_key r) (insert (rule_key x) true seen) rs,
      is_seen-insert seen (rule_key x) (rule_key r),
    )

dedup-NoneBefore :
    (x : PolicyRule) (seen : GoMap Bytes Bool) (rs : List PolicyRule)
    → NoneBefore x rs
    → NoneBefore x (dedup seen rs)
unfolding dedup
dedup-NoneBefore x seen [] p = tt
dedup-NoneBefore x seen (r ∷ rs) p = elim (Bool-cases (is_seen seen (rule_key r))) [
  | inl old ↦ rw old (dedup-NoneBefore x seen rs p.1)
  | inr new ↦ rw new (p.0, dedup-NoneBefore x (insert (rule_key r) true seen) rs p.1)
]

dedup-IsSorted :
    (seen : GoMap Bytes Bool) (rs : List PolicyRule) → IsSorted rs → IsSorted (dedup seen rs)
unfolding dedup
dedup-IsSorted seen [] s = tt
dedup-IsSorted seen (r ∷ rs) s = elim (Bool-cases (is_seen seen (rule_key r))) [
  | inl old ↦ rw old (dedup-IsSorted seen rs s.1)
  | inr new ↦ rw new (
    dedup-NoneBefore r (insert (rule_key r) true seen) rs s.0,
    dedup-IsSorted (insert (rule_key r) true seen) rs s.1,
  )
]

-- Every rule of the merged result is the first of its key there, and the result is in the order of
-- the sort.
pub merge_unique :
    (now version : ℕ) (policies : List (Option CompiledPolicy)) (r : PolicyRule)
    → In r (merge_and_prioritize now version policies).rules
    → (first_with (rule_key r) (merge_and_prioritize now version policies).rules ≡ some r)
      × IsSorted (merge_and_prioritize now version policies).rules
unfolding merge_and_prioritize
merge_unique now version policies r m =
    let sorted = sort_rules (collect_rules policies) in
    (
      dedup_first [] sorted r m,
      dedup-IsSorted [] sorted (sort_rules-IsSorted (collect_rules policies)),
    )
