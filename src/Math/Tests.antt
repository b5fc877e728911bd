-- ===== src/Math/Tests.antt =====
-- Runs of the arithmetic, and the theorems at concrete inputs.
use go_fiscobcos.Base.{
  ◌+◌, ◌-◌, ◌*◌, ◌%◌, ◌^◌, ◌≤◌, ◌<◌, ◌≡◌, ◌⊎◌, refl, true, false, length, pos, negsuc, get_elem?,
  be_bytes, some, arith,
}
use go_fiscobcos.Math.{
  safe_add, safe_mul, u256, s256, exp, exp_word, exp_words, words, words_acc, byte,
  big_endian_byte_at, byte_of_words,
}
use go_fiscobcos.Math.Checked.{safe_add_cases, safe_mul_cases}
use go_fiscobcos.Math.Signed.{IsI256, s256-u256, u256-s256}
use go_fiscobcos.Math.Exp.{exp-pow}
use go_fiscobcos.Math.Bytes.{byte-be_bytes}

add_over : safe_add (2 ^ 64 - 1) 3 ≡ (2, true)
unfolding safe_add
add_over = refl

mul_over : safe_mul (2 ^ 32) (2 ^ 32 + 1) ≡ (2 ^ 32, true)
unfolding safe_mul
mul_over = refl

s256_top : s256 (pos (2 ^ 255)) ≡ negsuc (2 ^ 255 - 1)
unfolding s256
s256_top = refl

exp_ten : (exp 3 10).0 ≡ 59049
unfolding exp exp_words exp_word words words_acc
exp_ten = refl

safe_add_cases_example :
    ((2 ^ 63 + 2 ^ 63 < 2 ^ 64) × (safe_add (2 ^ 63) (2 ^ 63) ≡ (2 ^ 63 + 2 ^ 63, false)))
    ⊎ ((2 ^ 64 ≤ 2 ^ 63 + 2 ^ 63) × (safe_add (2 ^ 63) (2 ^ 63) ≡ (2 ^ 63 + 2 ^ 63 - 2 ^ 64, true)))
safe_add_cases_example = safe_add_cases (2 ^ 63) (2 ^ 63) (omega arith) (omega arith)

safe_mul_cases_example :
    ((5 * 7 < 2 ^ 64) × (safe_mul 5 7 ≡ (5 * 7, false)))
    ⊎ ((2 ^ 64 ≤ 5 * 7) × (safe_mul 5 7 ≡ (5 * 7 % 2 ^ 64, true)))
safe_mul_cases_example = safe_mul_cases 5 7 (omega arith) (omega arith)

s256-u256_example : s256 (u256 (negsuc 6)) ≡ negsuc 6
s256-u256_example = s256-u256 (negsuc 6) (omega arith)

u256-s256_example :
    (u256 (s256 (pos (2 ^ 255 + 1))) ≡ pos (2 ^ 255 + 1)) × IsI256 (s256 (pos (2 ^ 255 + 1)))
u256-s256_example = u256-s256 (2 ^ 255 + 1) (omega arith)

exp-pow_example :
    ((exp 3 10).0 ≡ 3 ^ 10 % 2 ^ 256)
    × ((exp 3 10).1 % 2 ^ 256 ≡ 3 ^ (2 ^ 64) ^ length (words 10) % 2 ^ 256)
exp-pow_example = exp-pow 3 10

byte-be_bytes_example :
    (30 < 32 → get_elem? (be_bytes 32 1029) 30 ≡ some (byte 1029 32 30))
    × (32 ≤ 30 → byte 1029 32 30 ≡ 0)
byte-be_bytes_example = byte-be_bytes 1029 32 30

byte_low : byte 1029 32 31 ≡ 5
unfolding byte big_endian_byte_at byte_of_words words words_acc
byte_low = refl
