-- ===== src/Common/Hex.antt =====
-- FromHex reads what ToHex writes.
use go_fiscobcos.Base.{
  ℕ, ◌+◌, ◌*◌, ◌/◌, ◌%◌, ◌≡◌, ◌∙◌, refl, sym, ap, Bool, false, List, [], ◌∷◌, length, ◌==◌,
  if◌then◌else◌, ok, All, IsByte, arith,
}
use go_fiscobcos.Hexutil.{digit, hex_encode}
use go_fiscobcos.Hexutil.Nibbles.{digit-hex_digit}
use go_fiscobcos.Common.{hex_to_bytes, to_hex, from_hex}

hex_to_bytes_nil : hex_to_bytes [] ≡ []
unfolding hex_to_bytes
hex_to_bytes_nil = refl

hex_to_bytes_step :
    (x y a b : ℕ) (t : List ℕ)
    → digit x ≡ ok a
    → digit y ≡ ok b
    → hex_to_bytes (x ∷ y ∷ t) ≡ (a * 16 + b) ∷ hex_to_bytes t
unfolding hex_to_bytes
hex_to_bytes_step x y a b t e e' = ground (arith, e, e')

hex_to_bytes-hex_encode : (b : List ℕ) → All IsByte b → hex_to_bytes (hex_encode b) ≡ b
unfolding hex_encode
hex_to_bytes-hex_encode [] h = hex_to_bytes_nil
hex_to_bytes-hex_encode (x ∷ b) (hx, hb) =
    let whole : x / 16 * 16 + x % 16 ≡ x = omega arith in
    hex_to_bytes_step _ _ (x / 16) (x % 16) (hex_encode b) (digit-hex_digit (x / 16) (omega arith))
      (digit-hex_digit (x % 16) (omega arith))
    ∙ ap (λ (v : ℕ). v ∷ hex_to_bytes (hex_encode b)) whole
    ∙ ap (◌∷◌ x) (hex_to_bytes-hex_encode b hb)

length-hex_encode : (b : List ℕ) → length (hex_encode b) ≡ 2 * length b
unfolding hex_encode
length-hex_encode [] = omega arith
length-hex_encode (x ∷ b) = omega (arith, length-hex_encode b)

from_hex_empty : from_hex (to_hex []) ≡ 0 ∷ []
unfolding from_hex to_hex hex_encode
from_hex_empty =
    hex_to_bytes_step 48 48 0 0 [] (digit-hex_digit 0 (omega arith))
      (digit-hex_digit 0 (omega arith))
    ∙ ap (◌∷◌ 0) hex_to_bytes_nil

to_hex_some : (x : ℕ) (b : List ℕ) → to_hex (x ∷ b) ≡ 48 ∷ 120 ∷ hex_encode (x ∷ b)
unfolding to_hex
to_hex_some x b =
    let more : (length (hex_encode (x ∷ b)) == 0) ≡ false =
      ground (arith, length-hex_encode (x ∷ b)) in
    ap (λ (empty : Bool). 48 ∷ 120 ∷ (if empty then 48 ∷ [] else hex_encode (x ∷ b))) more

from_hex_even :
    (s : List ℕ) → (length s % 2 == 1) ≡ false → from_hex (48 ∷ 120 ∷ s) ≡ hex_to_bytes s
unfolding from_hex
from_hex_even s e = ap (λ (odd : Bool). hex_to_bytes (if odd then 48 ∷ s else s)) e

-- FromHex of ToHex of a slice of bytes is that slice, except for the empty one, of which it is
-- one byte 0.
pub from_hex-to_hex :
    (b : List ℕ) → All IsByte b → from_hex (to_hex b) ≡ (if length b == 0 then 0 ∷ [] else b)
from_hex-to_hex [] h = from_hex_empty
from_hex-to_hex (x ∷ b) h =
    let even : (length (hex_encode (x ∷ b)) % 2 == 1) ≡ false =
      ground (arith, length-hex_encode (x ∷ b)) in
    ap from_hex (to_hex_some x b)
    ∙ from_hex_even (hex_encode (x ∷ b)) even
    ∙ hex_to_bytes-hex_encode (x ∷ b) h
    ∙ (let some_byte : (length (x ∷ b) == 0) ≡ false = ground arith in
        ap (λ (empty : Bool). if empty then 0 ∷ [] else x ∷ b) (sym some_byte))
