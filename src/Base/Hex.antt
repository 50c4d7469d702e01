-- ===== src/Base/Hex.antt =====
-- Hexadecimal text in lower case: Go's `%x`, `%02x` and `hex.EncodeToString`.
use Prim.Native.Nat.{ℕ, zero, suc, ◌+◌, ◌/◌, ◌%◌}
use Prim.Native.Nat.{◌<◌}
use mathlib.Core.Path.{◌≡◌, refl, ap₂}
use native.Mathlib.Omega.{arith}
use mathlib.Core.List.{[], ◌∷◌, ◌++◌}
use coordino.Base.Tests.{ltb, if◌then◌else◌}
use coordino.Base.Strings.{Bytes}

abbrev pub hex_digit : ℕ → ℕ
hex_digit d = if ltb d 10 then 48 + d else 87 + d

-- The digits of a number below `16 ^ fuel`.
abbrev hex_digits : ℕ → ℕ → Bytes
hex_digits zero n = []
hex_digits (suc fuel) n =
    let more = hex_digits fuel (n / 16) in
    (if ltb n 16 then [] else more) ++ (hex_digit (n % 16) ∷ [])

-- `%02x`
abbrev pub hex_padded : ℕ → Bytes
hex_padded n = if ltb n 16 then 48 ∷ hex_digit n ∷ [] else hex_digits (suc n) n

-- `hex.EncodeToString`, and `%x` of a byte slice.
unfoldable pub encode_to_string : Bytes → Bytes
encode_to_string [] = []
encode_to_string (b ∷ bs) = hex_digit (b / 16) ∷ hex_digit (b % 16) ∷ encode_to_string bs

abbrev pub AllBytes : Bytes → Type 0
AllBytes [] = Unit {0}
AllBytes (b ∷ bs) = (b < 256) × AllBytes bs

hex_digit-injective : (a b : ℕ) → a < 16 → b < 16 → hex_digit a ≡ hex_digit b → a ≡ b
hex_digit-injective a b ha hb e = ground arith

-- Different strings have different texts.
pub encode_to_string-injective :
    (xs ys : Bytes)
    → AllBytes xs
    → AllBytes ys
    → encode_to_string xs ≡ encode_to_string ys
    → xs ≡ ys
unfolding encode_to_string
encode_to_string-injective [] [] p q e = refl
encode_to_string-injective [] (y ∷ ys) p q e = cc
encode_to_string-injective (x ∷ xs) [] p q e = cc
encode_to_string-injective (x ∷ xs) (y ∷ ys) p q e =
    let first : hex_digit (x / 16) ≡ hex_digit (y / 16) = cc in
    let second : hex_digit (x % 16) ≡ hex_digit (y % 16) = cc in
    let high = hex_digit-injective (x / 16) (y / 16) (omega arith) (omega arith) first in
    let low = hex_digit-injective (x % 16) (y % 16) (omega arith) (omega arith) second in
    let here : x ≡ y = omega arith in ap₂ ◌∷◌ here (encode_to_string-injective xs ys p.1 q.1 cc)
