-- ===== src/Policy/Merge.antt =====
-- MergeAndPrioritize of pkg/policy/compiler.go: a stable sort by priority, then one rule a key.
-- `now` and `version` are the two readings of the clock.
pub mod Order
pub mod Winner
pub mod Keys
use coordino.Base.{
  ℕ, Bool, true, false, not, List, [], ◌∷◌, ◌++◌, Option, none, some, Bytes, bytes_eq,
  if◌then◌else◌,
}
use coordino.Base.GoMap.{GoMap, lookup, insert}
use coordino.Policy.Rules.{PolicyRule, CompiledPolicy, less, rule_key}

-- `sort.SliceStable`: a rule goes before the first one that is not less than it.
unfoldable pub insert_rule : PolicyRule → List PolicyRule → List PolicyRule
insert_rule r [] = r ∷ []
insert_rule r (x ∷ xs) = if less x r then x ∷ insert_rule r xs else r ∷ x ∷ xs

unfoldable pub sort_rules : List PolicyRule → List PolicyRule
unfolding insert_rule
sort_rules [] = []
sort_rules (r ∷ rs) = insert_rule r (sort_rules rs)

-- The concatenation of the rules of the policies that are not nil.
unfoldable pub collect_rules : List (Option CompiledPolicy) → List PolicyRule
collect_rules [] = []
collect_rules (none ∷ ps) = collect_rules ps
collect_rules (some p ∷ ps) = p.rules ++ collect_rules ps

-- A missing key of `seen` reads as false.
unfoldable pub is_seen : GoMap Bytes Bool → Bytes → Bool
is_seen seen key = elim (lookup key seen) [ none ↦ false | some b ↦ b ]

unfoldable pub dedup : GoMap Bytes Bool → List PolicyRule → List PolicyRule
unfolding is_seen
dedup seen [] = []
dedup seen (r ∷ rs) =
    let known = is_seen seen (rule_key r) in
    let rest = dedup (if known then seen else insert (rule_key r) true seen) rs in
    if not known then r ∷ rest else rest

unfoldable pub merge_and_prioritize : ℕ → ℕ → List (Option CompiledPolicy) → CompiledPolicy
unfolding sort_rules collect_rules dedup
merge_and_prioritize now version policies = record {
  rules = dedup [] (sort_rules (collect_rules policies));
  compiled_at = now;
  version = version;
}
