-- ===== src/Hexutil/Data.antt =====
-- common/hexutil/hexutil.go: Encode and Decode.
use go_fiscobcos.Base.{
  ℕ, ◌+◌, ◌*◌, ◌/◌, ◌%◌, ◌≡◌, ◌∙◌, refl, sym, ap, true, List, [], ◌∷◌, map, ok, err, >>=_inv,
  ok-injective, Bool-cases, inl, inr, All, IsByte, arith,
}
use go_fiscobcos.Hexutil.{
  odd_length, missing_prefix, digit, hex_decode, has_0x_prefix, behind_prefix, decode, hex_encode,
  encode,
}
use go_fiscobcos.Hexutil.Nibbles.{digit-hex_digit, lower, digit_inv}

hex_decode-hex_encode : (b : List ℕ) → All IsByte b → hex_decode (hex_encode b) ≡ ok b
unfolding hex_decode hex_encode
hex_decode-hex_encode [] h = refl
hex_decode-hex_encode (x ∷ b) (hx, hb) =
    let whole : x / 16 * 16 + x % 16 ≡ x = omega arith in
    rw
      (
        digit-hex_digit (x / 16) (omega arith),
        digit-hex_digit (x % 16) (omega arith),
        hex_decode-hex_encode b hb,
        whole,
      )
      refl

-- Decode of Encode of a slice of bytes is that slice.
pub decode-encode : (b : List ℕ) → All IsByte b → decode (encode b) ≡ ok b
unfolding decode encode has_0x_prefix
decode-encode b h = hex_decode-hex_encode b h

hex_decode_inv : (s b : List ℕ) → hex_decode s ≡ ok b → (map lower s ≡ hex_encode b) × All IsByte b
unfolding hex_decode hex_encode
hex_decode_inv [] b e = let nil : [] ≡ b = ok-injective [] b e in rw (sym nil) (refl, tt)
hex_decode_inv (x ∷ []) b e = let (d, bad, ex) = >>=_inv (digit x) (λ d. err odd_length) e in cc
hex_decode_inv (x ∷ y ∷ t) b e =
    let (h, e1, ex) = >>=_inv (digit x) _ e in
    let (l, e2, ey) = >>=_inv (digit y) _ e1 in
    let (rest, e3, et) = >>=_inv (hex_decode t) _ e2 in
    let out : (h * 16 + l) ∷ rest ≡ b = ok-injective ((h * 16 + l) ∷ rest) b e3 in
    let (lx, hx) = digit_inv x h ex in
    let (ly, hy) = digit_inv y l ey in
    let (same, bytes) = hex_decode_inv t rest et in
    let high : (h * 16 + l) / 16 ≡ h = omega arith in
    let low : (h * 16 + l) % 16 ≡ l = omega arith in
    rw (sym out, high, low, lx, ly, same) (refl, (omega arith, bytes))

prefix_inv :
    (s : List ℕ) → has_0x_prefix s ≡ true → map lower s ≡ 48 ∷ 120 ∷ map lower (behind_prefix s)
unfolding has_0x_prefix
prefix_inv [] e = cc
prefix_inv (a ∷ []) e = cc
prefix_inv (a ∷ b ∷ t) e = ground (arith, e)

-- Where Decode succeeds, the result is a slice of bytes, and the input is its encoding, up to
-- upper and lower case of letters.
pub decode_inv : (s b : List ℕ) → decode s ≡ ok b → (map lower s ≡ encode b) × All IsByte b
unfolding decode encode
decode_inv [] b e = cc
decode_inv (c ∷ s) b e = elim (Bool-cases (has_0x_prefix (c ∷ s))) [
  | inl with_prefix ↦
      let body : hex_decode (behind_prefix (c ∷ s)) ≡ ok b = rw with_prefix at e in
      let (same, bytes) = hex_decode_inv (behind_prefix (c ∷ s)) b body in
      (prefix_inv (c ∷ s) with_prefix ∙ ap (λ (l : List ℕ). 48 ∷ 120 ∷ l) same, bytes)
  | inr bare ↦ let no_prefix : err missing_prefix ≡ ok b = rw bare at e in cc
]
