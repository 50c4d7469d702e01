-- ===== src/Examples/Plugins.antt =====
-- Examples for cmd/cni-plugin/main.go.
use coordino.Base.{◌≡◌, refl, List, [], ◌∷◌, Bytes, bytes, bytes_eq}
use coordino.Plugin.{parse_cni_args}
use coordino.Plugin.Args.{
  WellFormed, no_pairs, a_pair, args_text, put_each, parse_cni_args-args_text,
}

abbrev pairs : List (Bytes × Bytes)
pairs = (bytes "K8S_POD_NAME", bytes "web") ∷ (bytes "K8S_POD_NAMESPACE", bytes "default") ∷ []

pairs-WellFormed : WellFormed pairs
pairs-WellFormed =
    a_pair (bytes "K8S_POD_NAME") (bytes "web") _ refl refl refl refl
      (a_pair (bytes "K8S_POD_NAMESPACE") (bytes "default") _ refl refl refl refl no_pairs)

parse_cni_args-args_text_example : parse_cni_args (args_text pairs) ≡ put_each pairs []
parse_cni_args-args_text_example = parse_cni_args-args_text pairs pairs-WellFormed
