-- ===== src/Policy/Store.antt =====
-- PolicyStore of pkg/policy/policy_store.go. `none` is a panic of the compiler. `now` and `stamp` are
-- the readings of the clock, one for a whole call; the range over `policies` goes in the order of the
-- list. The callback is not run here: a call says whether it starts it.
pub mod Platform
use coordino.Base.{
  ℕ, ◌+◌, ◌%◌, ◌^◌, Bool, true, false, Option, none, some, List, [], ◌∷◌, ◌++◌, Bytes, bytes_eq,
  Result, ok, err,
}
use coordino.Base.GoMap.{GoMap, lookup, insert, delete}
use coordino.Policy.Rules.{
  CompiledPolicy, NetworkPolicySpec, PlatformRules, generate_rules, filter_rules_for_node,
}
use coordino.Policy.Merge.{merge_and_prioritize}
use coordino.Policy.Compiler.{Compiler, M, ◌>>=◌, done, compile_policy}

pub record StoredPolicy : Type 0 where
  pub name : Bytes
  pub namespace : Bytes
  pub spec : NetworkPolicySpec
  pub added_at : ℕ

-- `on_change` says whether a callback is set.
pub record PolicyStore : Type 0 where
  pub policies : GoMap Bytes StoredPolicy
  pub compiler : Compiler
  pub compiled : Option CompiledPolicy
  pub platform : Option PlatformRules
  pub version : ℕ
  pub on_change : Bool

pub data Error : Type 0 where
  policy_not_found : Bytes → Error

unfoldable pub new_policy_store : Compiler → Option PlatformRules → PolicyStore
new_policy_store compiler platform = record {
  policies = [];
  compiler = compiler;
  compiled = none;
  platform = platform;
  version = 1;
  on_change = false;
}

-- `fmt.Sprintf("%s/%s", namespace, name)`
abbrev pub policy_key : Bytes → Bytes → Bytes
policy_key name namespace = namespace ++ (b'/' ∷ name)

abbrev pub platform_policies : ℕ → ℕ → Option PlatformRules → List (Option CompiledPolicy)
platform_policies now stamp none = []
platform_policies now stamp (some p) =
    some (record { rules = generate_rules p; compiled_at = now; version = stamp }) ∷ []

module _ (digest : Bytes → Bytes) (now stamp : ℕ) where
  -- The loop of Recompile over the stored policies.
  unfoldable pub compile_stored :
      GoMap Bytes StoredPolicy → List (Option CompiledPolicy) → M (List (Option CompiledPolicy))
  compile_stored [] merged = done merged
  compile_stored ((_, p) ∷ rest) merged =
      compile_policy digest now stamp p.name p.namespace p.spec >>= λ compiled.
      compile_stored rest (merged ++ (some compiled ∷ []))

  -- The version is an int64, written as its 64 bits.
  unfoldable pub recompile : PolicyStore → Option (PolicyStore × Bool)
  unfolding compile_stored
  recompile s =
      elim (compile_stored s.policies (platform_policies now stamp s.platform) s.compiler) [
        | none ↦ none
        | some (merged, compiler) ↦ some (
          record s {
            compiler = compiler;
            compiled = some (merge_and_prioritize now stamp merged);
            version = (s.version + 1) % 2 ^ 64;
          },
          s.on_change,
        )
      ]

  unfoldable pub add_policy :
      Bytes → Bytes → NetworkPolicySpec → PolicyStore → Option (PolicyStore × Bool)
  unfolding recompile
  add_policy name namespace spec s =
      let stored : StoredPolicy = record {
        name = name;
        namespace = namespace;
        spec = spec;
        added_at = now;
      } in
      recompile (record s { policies = insert (policy_key name namespace) stored s.policies })

  unfoldable pub remove_policy :
      Bytes → Bytes → PolicyStore → Option (PolicyStore × Result Error Bool)
  unfolding recompile
  remove_policy name namespace s = elim (lookup (policy_key name namespace) s.policies) [
    | none ↦ some (s, err (Error.policy_not_found (policy_key name namespace)))
    | some _ ↦
        elim (recompile (record s { policies = delete (policy_key name namespace) s.policies })) [
          | none ↦ none
          | some (t, started) ↦ some (t, ok started)
        ]
  ]

  unfoldable pub get_compiled_for_node : (ℕ → Bool) → PolicyStore → CompiledPolicy
  get_compiled_for_node present s = elim s.compiled [
    | none ↦ record { rules = []; compiled_at = now; version = 0 }
    | some c ↦ record {
      rules = filter_rules_for_node present c.rules;
      compiled_at = now;
      version = c.version;
    }
  ]

unfoldable pub get_policy : Bytes → Bytes → PolicyStore → Option StoredPolicy
get_policy name namespace s = lookup (policy_key name namespace) s.policies

abbrev values : {V : Type 0} → GoMap Bytes V → List V
values [] = []
values ((k, x) ∷ m) = x ∷ values m

unfoldable pub list_policies : PolicyStore → List StoredPolicy
list_policies s = values s.policies

unfoldable pub set_on_change_callback : PolicyStore → PolicyStore
set_on_change_callback s = record s { on_change = true }

unfoldable pub get_version : PolicyStore → ℕ
get_version s = s.version

unfoldable pub get_compiled_policy : PolicyStore → Option CompiledPolicy
get_compiled_policy s = s.compiled
