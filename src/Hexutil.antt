-- ===== src/Hexutil.antt =====
-- common/hexutil/hexutil.go: byte slices and uint64 values as hex strings with the prefix 0x. A Go
-- string is the list of its bytes. What Go returns beside an error is left out. The errors of
-- encoding/hex and strconv stand as what mapError makes of them.
pub mod Nibbles
pub mod Data
pub mod Quantity
mod Tests
use mathlib.Core.Logic.{dite}
use mathlib.Core.WellFounded.{Acc}
use native.Mathlib.Decide.{dec_lt}
use go_fiscobcos.Base.{
  ℕ, ◌+◌, ◌-◌, ◌*◌, ◌/◌, ◌%◌, ◌^◌, ◌<◌, Bool, true, false, ◌&&◌, ◌||◌, List, [], ◌∷◌, ◌++◌, ltb,
  leb, ◌==◌, if◌then◌else◌, Option, none, some, Outcome, ok, err, ◌>>=◌, lt_wf, arith,
}

pub data Error : Type 0 where
  empty_string : Error
  syntax : Error
  missing_prefix : Error
  odd_length : Error
  empty_number : Error
  leading_zero : Error
  uint64_range : Error

-- decodeNibble, with `none` for badNibble. encoding/hex and strconv read digits the same way.
pub decode_nibble : ℕ → Option ℕ
decode_nibble c =
    if leb 48 c && leb c 57
    then some (c - 48)
    else if leb 65 c && leb c 70
    then some (c - 65 + 10)
    else if leb 97 c && leb c 102
    then some (c - 97 + 10)
    else none

-- A digit, or ErrSyntax.
unfoldable pub digit : ℕ → Outcome Error ℕ
unfolding decode_nibble
digit c = elim (decode_nibble c) [ none ↦ err syntax | some d ↦ ok d ]

-- hex.DecodeString: an odd digit at the end is looked at before the length is reported.
pub hex_decode : List ℕ → Outcome Error (List ℕ)
unfolding digit
hex_decode [] = ok []
hex_decode (x ∷ []) = do d ← digit x; err odd_length
hex_decode (x ∷ y ∷ t) = do a ← digit x; b ← digit y; rest ← hex_decode t; ok ((a * 16 + b) ∷ rest)

pub has_0x_prefix : List ℕ → Bool
has_0x_prefix (a ∷ b ∷ t) = (a == 48) && ((b == 120) || (b == 88))
has_0x_prefix _ = false

abbrev pub behind_prefix : List ℕ → List ℕ
behind_prefix (a ∷ b ∷ t) = t
behind_prefix _ = []

pub decode : List ℕ → Outcome Error (List ℕ)
unfolding hex_decode has_0x_prefix
decode [] = err empty_string
decode (c ∷ input) =
    if has_0x_prefix (c ∷ input) then hex_decode (behind_prefix (c ∷ input)) else err missing_prefix

-- A lower-case digit.
abbrev pub hex_digit : ℕ → ℕ
hex_digit d = if ltb d 10 then 48 + d else 87 + d

unfoldable pub hex_encode : List ℕ → List ℕ
hex_encode [] = []
hex_encode (b ∷ t) = hex_digit (b / 16) ∷ hex_digit (b % 16) ∷ hex_encode t

pub encode : List ℕ → List ℕ
unfolding hex_encode
encode b = 48 ∷ 120 ∷ hex_encode b

-- `len(input) > 1 && input[0] == '0'`
abbrev pub padded : List ℕ → Bool
padded (c ∷ d ∷ t) = c == 48
padded _ = false

pub check_number : List ℕ → Outcome Error (List ℕ)
unfolding has_0x_prefix
check_number [] = err empty_string
check_number (c ∷ input) =
    if has_0x_prefix (c ∷ input)
    then elim (behind_prefix (c ∷ input)) [
      | [] ↦ err empty_number
      | d ∷ t ↦ if padded (d ∷ t) then err leading_zero else ok (d ∷ t)
    ]
    else err missing_prefix

-- strconv.ParseUint in base 16 for 64 bits, behind the digits that make `n`: a number of at least
-- 2 ^ 60 has no room for another digit.
pub parse_uint : ℕ → List ℕ → Outcome Error ℕ
unfolding digit
parse_uint n [] = ok n
parse_uint n (c ∷ t) = do
  d ← digit c
  let rest = parse_uint (n * 16 + d) t
  if leb (2 ^ 60) n then err uint64_range else rest

pub decode_uint64 : List ℕ → Outcome Error ℕ
unfolding check_number parse_uint
decode_uint64 input = do raw ← check_number input; parse_uint 0 raw

digit_shrinks : (n : ℕ) → 0 < n / 16 → n / 16 < n
digit_shrinks n h = omega arith

-- strconv.AppendUint in base 16.
pub hex_number_acc : (n : ℕ) → Acc ◌<◌ n → List ℕ
hex_number_acc n (Acc.intro _ smaller) =
    dite (dec_lt 0 (n / 16))
      (λ more.
        hex_number_acc (n / 16) (smaller (n / 16) (digit_shrinks n more))
        ++ hex_digit (n % 16) ∷ [])
      (λ _. hex_digit (n % 16) ∷ [])

pub hex_number : ℕ → List ℕ
unfolding hex_number_acc lt_wf dec_lt
hex_number n = hex_number_acc n (lt_wf.apply n)

pub encode_uint64 : ℕ → List ℕ
unfolding hex_number
encode_uint64 i = 48 ∷ 120 ∷ hex_number i
