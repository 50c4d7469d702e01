-- ===== src/Plugin/Args.antt =====
-- parseCNIArgs (cmd/cni-plugin/main.go) on the text of well-formed pairs.
use coordino.Base.{
  ℕ, ◌≡◌, ◌≢◌, refl, ap, ◌∙◌, arith, nat_beq, true, not, List, [], ◌∷◌, ◌++◌, Bytes, bytes_eq,
  bytes_beq, if◌then◌else◌, all, beq_of_ne,
}
use coordino.Base.GoMap.{GoMap, insert}
use coordino.Plugin.{split, put_pairs, parse_cni_args, prepend}

-- The byte does not occur.
abbrev pub Free : ℕ → Bytes → Type 0
Free sep bs = all (λ b. not (nat_beq b sep)) bs ≡ true

abbrev pub pair_text : Bytes × Bytes → Bytes
pair_text (k, v) = k ++ (61 ∷ v)

-- The pairs, separated by semicolons.
abbrev pub args_text : List (Bytes × Bytes) → Bytes
args_text [] = []
args_text (p ∷ []) = pair_text p
args_text (p ∷ ps) = pair_text p ++ (59 ∷ args_text ps)

abbrev pub put_each : List (Bytes × Bytes) → GoMap Bytes Bytes → GoMap Bytes Bytes
put_each [] args = args
put_each ((k, v) ∷ ps) args = put_each ps (insert k v args)

pub data WellFormed : List (Bytes × Bytes) → Type 0 where
  no_pairs : WellFormed []
  a_pair :
      (k v : Bytes) (ps : List (Bytes × Bytes))
      → Free 61 k
      → Free 61 v
      → Free 59 k
      → Free 59 v
      → WellFormed ps
      → WellFormed ((k, v) ∷ ps)

prepend_whole :
    (sep b : ℕ) (bs : Bytes) (whole next rest : List Bytes)
    → not (nat_beq b sep) ≡ true
    → next ≡ bs ∷ rest
    → (if nat_beq b sep then [] ∷ whole else prepend b next) ≡ (b ∷ bs) ∷ rest
prepend_whole sep b bs whole next rest f h = ground (arith, f, ap (prepend b) h)

split-Free : (sep : ℕ) (bs : Bytes) → Free sep bs → split sep bs ≡ bs ∷ []
unfolding split
split-Free sep [] f = refl
split-Free sep (b ∷ bs) f =
    prepend_whole sep b bs (split sep bs) (split sep bs) [] (ground (arith, f))
      (split-Free sep bs (ground (arith, f)))

split_at :
    (sep : ℕ) (bs rest : Bytes) → Free sep bs → split sep (bs ++ (sep ∷ rest)) ≡ bs ∷ split sep rest
unfolding split
split_at sep [] rest f = ground arith
split_at sep (b ∷ bs) rest f =
    let next = split sep (bs ++ (sep ∷ rest)) in
    prepend_whole sep b bs next next (split sep rest) (ground (arith, f))
      (split_at sep bs rest (ground (arith, f)))

-- The text of a pair holds no semicolon.
Free-pair_text : (k v : Bytes) → Free 59 k → Free 59 v → Free 59 (pair_text (k, v))
Free-pair_text [] v f g = ground (arith, g)
Free-pair_text (b ∷ bs) v f g = ground (arith, f, Free-pair_text bs v (ground (arith, f)) g)

split-pair_text : (k v : Bytes) → Free 61 k → Free 61 v → split 61 (pair_text (k, v)) ≡ k ∷ v ∷ []
split-pair_text k v f g = split_at 61 k v f ∙ ap (λ parts. k ∷ parts) (split-Free 61 v g)

-- The texts of the pairs, of which the first is not empty since it holds an `=`.
put_pairs-args_text :
    (p : Bytes × Bytes) (ps : List (Bytes × Bytes)) (args : GoMap Bytes Bytes)
    → WellFormed (p ∷ ps)
    → put_pairs (split 59 (args_text (p ∷ ps))) args ≡ put_each (p ∷ ps) args
unfolding put_pairs
put_pairs-args_text (k, v) [] args (a_pair _ _ _ fk fv gk gv w) =
    rw (split-Free 59 (pair_text (k, v)) (Free-pair_text k v gk gv))
      (rw (split-pair_text k v fk fv) refl)
put_pairs-args_text (k, v) (q ∷ qs) args (a_pair _ _ _ fk fv gk gv w) =
    rw (split_at 59 (pair_text (k, v)) (args_text (q ∷ qs)) (Free-pair_text k v gk gv))
      (rw (split-pair_text k v fk fv, put_pairs) (put_pairs-args_text q qs (insert k v args) w))

-- A text with a byte in its middle is not empty.
not_empty : (k : Bytes) (b : ℕ) (rest : Bytes) → (k ++ (b ∷ rest)) ≢ []
not_empty [] b rest e = ground (arith, e)
not_empty (x ∷ xs) b rest e = ground (arith, e)

text_not_empty : (p : Bytes × Bytes) (ps : List (Bytes × Bytes)) → args_text (p ∷ ps) ≢ []
text_not_empty (k, v) [] = not_empty k 61 v
text_not_empty (k, v) (q ∷ qs) = not_empty (pair_text (k, v)) 59 (args_text (q ∷ qs))

-- The arguments that parseCNIArgs reads from the text of pairs, whose keys and values contain
-- neither a semicolon nor an equals sign, are those pairs, a later one for the same key in place of
-- an earlier one.
pub parse_cni_args-args_text :
    (ps : List (Bytes × Bytes)) → WellFormed ps → parse_cni_args (args_text ps) ≡ put_each ps []
unfolding parse_cni_args bytes_beq
parse_cni_args-args_text [] w = refl
parse_cni_args-args_text (p ∷ ps) w =
    rw (beq_of_ne (args_text (p ∷ ps)) [] (text_not_empty p ps), parse_cni_args)
      (put_pairs-args_text p ps [] w)
