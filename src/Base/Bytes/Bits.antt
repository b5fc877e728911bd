-- ===== src/Base/Bytes/Bits.antt =====
-- Laws of the native bit operations at variables, digit by digit.
use Prim.Native.Nat.{ℕ, zero, suc, ◌+◌, ◌*◌, ◌/◌, ◌^◌, ◌≤◌, ◌<◌, bit_or, bit_or-bitwise}
use mathlib.Core.Path.{◌≡◌, refl, ap}
use native.Mathlib.Omega.{arith}
use native.Mathlib.Nat.{two-pow-succ}
use go_fiscobcos.Base.Bytes.Bitwise.{bit_or_step}

pub zero-bit_or : (y : ℕ) → bit_or 0 y ≡ y
zero-bit_or = bit_or-bitwise 0

-- The bound falls with the halves of `x`.
bit_or-zero_upto : (k x : ℕ) → x ≤ k → bit_or x 0 ≡ x
bit_or-zero_upto k zero small = refl
bit_or-zero_upto zero (suc x) small = absurd (omega arith)
bit_or-zero_upto (suc k) (suc x) small =
    omega (arith, bit_or-zero_upto k (suc x / 2) (omega arith), bit_or_step (suc x) 0)

pub bit_or-zero : (x : ℕ) → bit_or x 0 ≡ x
bit_or-zero x = bit_or-zero_upto x x (omega arith)

-- Where no bit of `y` reaches the multiple of `2 ^ k`, `|` adds.
pub bit_or-eq-add : (k q y : ℕ) → y < 2 ^ k → bit_or (q * 2 ^ k) y ≡ q * 2 ^ k + y
bit_or-eq-add zero q y h =
    let z : y ≡ 0 = omega arith in rw z (omega (arith, bit_or-zero (q * 2 ^ 0)))
bit_or-eq-add (suc k) q y h =
    let p : ℕ = q * 2 ^ k in
    let double : q * 2 ^ suc k ≡ 2 * p = omega (arith, ap (λ (t : ℕ). q * t) (two-pow-succ k)) in
    rw double (
      omega (
        arith,
        bit_or_step (2 * p) y,
        ap (λ (t : ℕ). bit_or t (y / 2)) (let e : 2 * p / 2 ≡ p = omega arith in e),
        bit_or-eq-add k q (y / 2) (omega (arith, two-pow-succ k)),
      ))
