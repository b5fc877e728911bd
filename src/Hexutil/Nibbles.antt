-- ===== src/Hexutil/Nibbles.antt =====
-- common/hexutil/hexutil.go: single digits.
use go_fiscobcos.Base.{ℕ, ◌+◌, ◌<◌, ◌≡◌, leb, ◌&&◌, if◌then◌else◌, ok, arith}
use go_fiscobcos.Hexutil.{decode_nibble, digit, hex_digit}

pub digit-hex_digit : (d : ℕ) → d < 16 → digit (hex_digit d) ≡ ok d
unfolding digit decode_nibble
digit-hex_digit d h = ground arith

-- A letter in lower case.
abbrev pub lower : ℕ → ℕ
lower c = if leb 65 c && leb c 90 then c + 32 else c

-- A digit that is read is, in lower case, the one that is written.
pub digit_inv : (c d : ℕ) → digit c ≡ ok d → (lower c ≡ hex_digit d) × (d < 16)
unfolding digit decode_nibble
digit_inv c d e = ground (arith, e)
