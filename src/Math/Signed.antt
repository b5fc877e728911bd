-- ===== src/Math/Signed.antt =====
-- common/math/big.go: 256-bit numbers in two's complement.
use go_fiscobcos.Base.{ℕ, ◌^◌, ◌<◌, ◌≡◌, ℤ, pos, negsuc, arith}
use go_fiscobcos.Math.{u256, s256}

-- The integers from -2 ^ 255 up to 2 ^ 255, without the last.
abbrev pub IsI256 : ℤ → Type 0
IsI256 (pos n) = n < 2 ^ 255
IsI256 (negsuc n) = n < 2 ^ 255

-- S256 gives back an integer from -2 ^ 255 up to 2 ^ 255, without the last, from its 256-bit
-- two's complement, which U256 takes.
pub s256-u256 : (x : ℤ) → IsI256 x → s256 (u256 x) ≡ x
unfolding s256 u256
s256-u256 (pos n) h = ground arith
s256-u256 (negsuc n) h = ground arith

-- For a number below 2 ^ 256, U256 of S256 is that number, and S256 is between -2 ^ 255 and 2 ^
-- 255, without the last.
pub u256-s256 : (n : ℕ) → n < 2 ^ 256 → (u256 (s256 (pos n)) ≡ pos n) × IsI256 (s256 (pos n))
unfolding s256 u256
u256-s256 n h = ground arith
