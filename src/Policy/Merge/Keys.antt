-- ===== src/Policy/Merge/Keys.antt =====
-- The key by which MergeAndPrioritize (pkg/policy/compiler.go) tells rules apart.
use coordino.Base.{ℕ, ◌≡◌, sym, ap, ◌∙◌, [], ◌∷◌, ◌++◌, arith, Bytes}
use coordino.Base.Decimal.{pos, itoa, print_int, AllDigits, itoa-AllDigits, itoa-injective}
use coordino.Policy.Rules.{PolicyRule, rule_key}

dash_digits : (xs u : Bytes) → AllDigits xs → {v : Bytes} → xs ≡ b'-' ∷ v → ⊥
dash_digits [] u p e = cc
dash_digits (x ∷ xs) u p e = ground (arith, p.0)

-- Digits end at the first dash.
split_dash :
    (xs ys u v : Bytes)
    → AllDigits xs
    → AllDigits ys
    → xs ++ (b'-' ∷ u) ≡ ys ++ (b'-' ∷ v)
    → (xs ≡ ys) × (u ≡ v)
split_dash [] [] u v p q e = ground arith
split_dash [] (y ∷ ys) u v p q e = absurd (ground (arith, q.0))
split_dash (x ∷ xs) [] u v p q e = absurd (ground (arith, p.0))
split_dash (x ∷ xs) (y ∷ ys) u v p q e = ground (arith, split_dash xs ys u v p.2 q.2)

-- A text with a dash is no text of digits.
dash_inside : (xs v ds : Bytes) → AllDigits ds → ds ≡ xs ++ (b'-' ∷ v) → ⊥
dash_inside [] v [] p e = cc
dash_inside [] v (d ∷ ds) p e = ground (arith, p.0)
dash_inside (x ∷ xs) v [] p e = cc
dash_inside (x ∷ xs) v (d ∷ ds) p e = dash_inside xs v ds p.2 (ground arith)

-- Digits begin after the last dash.
split_last_dash :
    (xs ys ds es : Bytes)
    → AllDigits ds
    → AllDigits es
    → xs ++ (b'-' ∷ ds) ≡ ys ++ (b'-' ∷ es)
    → (xs ≡ ys) × (ds ≡ es)
split_last_dash [] [] ds es p q e = ground arith
split_last_dash [] (y ∷ ys) ds es p q e = absurd (dash_inside ys es ds p (ground arith))
split_last_dash (x ∷ xs) [] ds es p q e = absurd (dash_inside xs ds es q (ground arith))
split_last_dash (x ∷ xs) (y ∷ ys) ds es p q e = ground (arith, split_last_dash xs ys ds es p q)

-- Two rules whose ports are not negative have one key only if they agree on both identities, the
-- protocol and the port.
pub rule_key-injective :
    (r s : PolicyRule) (p q : ℕ)
    → r.port ≡ pos p
    → s.port ≡ pos q
    → rule_key r ≡ rule_key s
    → (r.src_identity ≡ s.src_identity)
      × (r.dst_identity ≡ s.dst_identity)
      × (r.proto ≡ s.proto)
      × (p ≡ q)
unfolding rule_key print_int
rule_key-injective r s p q ep eq h =
    let (src, h1) =
      split_dash (itoa r.src_identity) (itoa s.src_identity) _ _ (itoa-AllDigits r.src_identity)
        (itoa-AllDigits s.src_identity) h in
    let (dst, h2) =
      split_dash (itoa r.dst_identity) (itoa s.dst_identity) _ _ (itoa-AllDigits r.dst_identity)
        (itoa-AllDigits s.dst_identity) h1 in
    let (proto, port) =
      split_last_dash r.proto s.proto (itoa p) (itoa q) (itoa-AllDigits p) (itoa-AllDigits q) (
        ap (λ x. r.proto ++ (b'-' ∷ print_int x)) (sym ep)
        ∙ h2
        ∙ ap (λ x. s.proto ++ (b'-' ∷ print_int x)) eq) in
    (
      itoa-injective r.src_identity s.src_identity src,
      itoa-injective r.dst_identity s.dst_identity dst,
      proto,
      itoa-injective p q port,
    )
