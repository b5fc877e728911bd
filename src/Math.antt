-- ===== src/Math.antt =====
-- common/math: integer.go, checked arithmetic on uint64, and big.go, 256-bit arithmetic. A big.Int is
-- an integer, or a natural number where its sign is not read.
pub mod Checked
pub mod Signed
pub mod Powers
pub mod Exp
pub mod Bytes
mod Tests
use mathlib.Core.Logic.{dite}
use mathlib.Core.WellFounded.{Acc}
use native.Mathlib.Decide.{dec_lt}
use go_fiscobcos.Base.{
  ℕ, zero, suc, ◌+◌, ◌-◌, ◌*◌, ◌/◌, ◌%◌, ◌^◌, ◌<◌, Bool, true, false, ◌||◌, List, [], ◌∷◌, ltb,
  ◌==◌, if◌then◌else◌, sub_u64, ℤ, pos, negsuc, lt_wf, arith, leb, get_elem?, none, some,
}

abbrev pub max_uint64 : ℕ
max_uint64 = 2 ^ 64 - 1

pub safe_sub : ℕ → ℕ → ℕ × Bool
safe_sub x y = (sub_u64 x y, ltb x y)

pub safe_add : ℕ → ℕ → ℕ × Bool
safe_add x y = ((x + y) % 2 ^ 64, ltb (sub_u64 max_uint64 x) y)

pub safe_mul : ℕ → ℕ → ℕ × Bool
safe_mul x y = if (x == 0) || (y == 0) then (0, false) else (x * y % 2 ^ 64, ltb (max_uint64 / x) y)

-- `x.And(x, tt256m1)`: of a negative integer it takes the bits of the two's complement.
pub u256 : ℤ → ℤ
u256 (pos n) = pos (n % 2 ^ 256)
u256 (negsuc n) = pos (2 ^ 256 - 1 - n % 2 ^ 256)

-- `x.Cmp(tt255) < 0` holds for every negative integer.
pub s256 : ℤ → ℤ
s256 (negsuc n) = negsuc n
s256 (pos n) =
    if ltb n (2 ^ 255)
    then pos n
    else if ltb n (2 ^ 256)
    then negsuc (2 ^ 256 - n - 1)
    else pos (n - 2 ^ 256)

-- The loop of Exp over the `rounds` lowest bits of a word, on the result and the base, which is
-- squared in place. Neither is negative.
pub exp_word : ℕ → ℕ → ℕ → ℕ → ℕ × ℕ
exp_word zero word result base = (result, base)
exp_word (suc rounds) word result base =
    exp_word rounds (word / 2) (if word % 2 == 1 then result * base % 2 ^ 256 else result)
      (base * base % 2 ^ 256)

pub exp_words : List ℕ → ℕ → ℕ → ℕ × ℕ
unfolding exp_word
exp_words [] result base = (result, base)
exp_words (word ∷ words_) result base =
    let (result', base') = exp_word 64 word result base in exp_words words_ result' base'

word_shrinks : (n : ℕ) → 0 < n → n / 2 ^ 64 < n
word_shrinks n h = omega arith

-- big.Int.Bits: the words of the absolute value, the lowest first; none for 0.
pub words_acc : (n : ℕ) → Acc ◌<◌ n → List ℕ
words_acc n (Acc.intro _ smaller) =
    dite (dec_lt 0 n)
      (λ h. n % 2 ^ 64 ∷ words_acc (n / 2 ^ 64) (smaller (n / 2 ^ 64) (word_shrinks n h))) (λ _. [])

pub words : ℕ → List ℕ
unfolding words_acc lt_wf dec_lt
words n = words_acc n (lt_wf.apply n)

-- Exp: the result, and what becomes of the caller's base.
pub exp : ℕ → ℕ → ℕ × ℕ
unfolding exp_words words
exp base exponent = exp_words (words exponent) 1 base

-- bigEndianByteAt, from the words of the integer: byte `n` from the low end.
pub byte_of_words : List ℕ → ℕ → ℕ
byte_of_words ws n = elim (get_elem? ws (n / 8)) [ none ↦ 0 | some w ↦ w / 2 ^ (8 * (n % 8)) % 256 ]

pub big_endian_byte_at : ℕ → ℕ → ℕ
unfolding byte_of_words words
big_endian_byte_at bigint n = byte_of_words (words bigint) n

-- Byte: byte `n` from the high end of `padlength` bytes.
pub byte : ℕ → ℕ → ℕ → ℕ
unfolding big_endian_byte_at
byte bigint padlength n =
    if leb padlength n then 0 else big_endian_byte_at bigint (padlength - 1 - n)
