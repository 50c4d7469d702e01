-- ===== src/Policy/Writer/Priority.antt =====
-- Which rule decides an entry of the policy map (pkg/policy/ebpf_writer.go).
use coordino.Base.{
  ◌≡◌, refl, ap, ◌∙◌, List, [], ◌∷◌, Option, none, some, bytes_eq, if◌then◌else◌, ◌==◌,
}
use coordino.Base.GoMap.{GoMap, lookup, insert, lookup-insert}
use coordino.Policy.Rules.{PolicyRule}
use coordino.Policy.Writer.{
  PolicyMapKey, PolicyMapValue, key_eq, map_key, map_value, write_entries,
  compile_rules_to_map_entries,
}

-- The value of the last rule with the key, or what was there.
abbrev pub last_value :
    PolicyMapKey → Option PolicyMapValue → List PolicyRule → Option PolicyMapValue
last_value k o [] = o
last_value k o (r ∷ rs) = last_value k (if map_key r == k then some (map_value r) else o) rs

lookup-write_entries :
    (k : PolicyMapKey) (m : GoMap PolicyMapKey PolicyMapValue) (rs : List PolicyRule)
    → lookup k (write_entries m rs) ≡ last_value k (lookup k m) rs
unfolding write_entries
lookup-write_entries k m [] = refl
lookup-write_entries k m (r ∷ rs) =
    lookup-write_entries k (insert (map_key r) (map_value r) m) rs
    ∙ ap (λ o. last_value k o rs) (lookup-insert (map_key r) k (map_value r) m)

-- The entry of a key in the compiled map is the verdict of the last rule in the list that maps to
-- the key, and there is none where no rule does.
pub lookup-compile :
    (k : PolicyMapKey) (rules : List PolicyRule)
    → lookup k (compile_rules_to_map_entries rules) ≡ last_value k none rules
unfolding compile_rules_to_map_entries lookup
lookup-compile k rules = lookup-write_entries k [] rules
