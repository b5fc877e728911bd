-- ===== src/Hexutil/Tests.antt =====
-- Runs of the conversions, and the theorems at concrete inputs.
use go_fiscobcos.Base.{◌≡◌, refl, [], ◌∷◌, map, All, IsByte, ok, err, arith}
use go_fiscobcos.Hexutil.{
  syntax, odd_length, leading_zero, empty_number, digit, decode_nibble, hex_decode, has_0x_prefix,
  decode, encode, check_number, parse_uint, decode_uint64, encode_uint64, hex_number,
  hex_number_acc,
}
use go_fiscobcos.Hexutil.Nibbles.{lower}
use go_fiscobcos.Hexutil.Data.{decode-encode, decode_inv}
use go_fiscobcos.Hexutil.Quantity.{decode_uint64-encode_uint64}

-- "0x0aF", whose length is odd, and "0x0g".
decode_odd : decode (48 ∷ 120 ∷ 48 ∷ 97 ∷ 70 ∷ []) ≡ err odd_length
unfolding decode hex_decode has_0x_prefix digit decode_nibble
decode_odd = refl

decode_bad : decode (48 ∷ 120 ∷ 48 ∷ 103 ∷ []) ≡ err syntax
unfolding decode hex_decode has_0x_prefix digit decode_nibble
decode_bad = refl

-- "0x" and "0x01".
number_empty : decode_uint64 (48 ∷ 120 ∷ []) ≡ err empty_number
unfolding decode_uint64 check_number has_0x_prefix
number_empty = refl

number_padded : decode_uint64 (48 ∷ 120 ∷ 48 ∷ 49 ∷ []) ≡ err leading_zero
unfolding decode_uint64 check_number has_0x_prefix
number_padded = refl

encode_number : encode_uint64 1024 ≡ 48 ∷ 120 ∷ 52 ∷ 48 ∷ 48 ∷ []
unfolding encode_uint64 hex_number hex_number_acc
encode_number = refl

decode-encode_example : decode (encode (0 ∷ 175 ∷ [])) ≡ ok (0 ∷ 175 ∷ [])
decode-encode_example = decode-encode (0 ∷ 175 ∷ []) (omega arith, (omega arith, tt))

-- "0XaF"
decode_upper : decode (48 ∷ 88 ∷ 97 ∷ 70 ∷ []) ≡ ok (175 ∷ [])
unfolding decode hex_decode has_0x_prefix digit decode_nibble
decode_upper = refl

decode_inv_example :
    (map lower (48 ∷ 88 ∷ 97 ∷ 70 ∷ []) ≡ encode (175 ∷ [])) × All IsByte (175 ∷ [])
decode_inv_example = decode_inv (48 ∷ 88 ∷ 97 ∷ 70 ∷ []) (175 ∷ []) decode_upper

decode_uint64-encode_uint64_example : decode_uint64 (encode_uint64 1024) ≡ ok 1024
decode_uint64-encode_uint64_example = decode_uint64-encode_uint64 1024 (omega arith)

number_ten : decode_uint64 (48 ∷ 120 ∷ 65 ∷ []) ≡ ok 10
unfolding decode_uint64 check_number has_0x_prefix parse_uint digit decode_nibble
number_ten = refl
