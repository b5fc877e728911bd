-- ===== src/Base/Bytes/Bitwise.antt =====
-- Operations on numbers bit by bit: and, or, and exclusive or.
use Prim.Native.Nat.{
  ℕ, zero, suc, ◌+◌, ◌*◌, ◌/◌, ◌%◌, ◌^◌, ◌≤◌, ◌<◌, max, min, digits, differ, bit_and, bit_or,
  bit_xor, bit_and-bitwise, bit_or-bitwise, bit_xor-bitwise,
}
use mathlib.Core.Path.{◌≡◌, ◌∙◌, refl, sym, ap}
use native.Mathlib.Omega.{arith}
use native.Mathlib.Nat.{two-pow-succ}

module _ (z : ℕ → ℕ) (f : ℕ → ℕ → ℕ) where
  -- The bound on the digits is enough if it is no less than the number.
  digits_bound : (k l x y : ℕ) → x ≤ k → x ≤ l → digits z f k x y ≡ digits z f l x y
  digits_bound k l zero y lo hi = no_digits k ∙ sym (no_digits l)
    where
      no_digits : (n : ℕ) → digits z f n zero y ≡ z y
      no_digits zero = refl
      no_digits (suc n) = refl
  digits_bound zero l (suc x) y lo hi = absurd (omega arith)
  digits_bound (suc k) zero (suc x) y lo hi = absurd (omega arith)
  digits_bound (suc k) (suc l) (suc x) y lo hi =
      let half : ℕ = suc x / 2 in
      omega (arith, digits_bound k l half (y / 2) (omega arith) (omega arith))

  -- What the operation does with the last digits, and with the others.
  digits_step :
      (x y : ℕ)
      → ((b : ℕ) → z b ≡ z (b / 2) * 2 + f 0 (b % 2))
      → digits z f x x y ≡ digits z f (x / 2) (x / 2) (y / 2) * 2 + f (x % 2) (y % 2)
  digits_step zero y law = law y
  digits_step (suc x) y law =
      let half : ℕ = suc x / 2 in
      ap (λ (t : ℕ). t * 2 + f (suc x % 2) (y % 2))
        (digits_bound x half half (y / 2) (omega arith) (omega arith))

-- An operation that works on each bit alone.
pub record IsBitwise (op : ℕ → ℕ → ℕ) : Type 0 where
  pub on_digits : ℕ → ℕ → ℕ
  pub zeros : op 0 0 ≡ 0
  pub step : (x y : ℕ) → op x y ≡ op (x / 2) (y / 2) * 2 + on_digits (x % 2) (y % 2)
  pub small : (x y : ℕ) → x < 2 → y < 2 → on_digits x y < 2

pub bit_or_step : (x y : ℕ) → bit_or x y ≡ bit_or (x / 2) (y / 2) * 2 + max (x % 2) (y % 2)
bit_or_step x y =
    bit_or-bitwise x y
    ∙ digits_step (λ b. b) max x y (λ b. omega arith)
    ∙ ap (λ (t : ℕ). t * 2 + max (x % 2) (y % 2)) (sym (bit_or-bitwise (x / 2) (y / 2)))

pub bit_or-IsBitwise : IsBitwise bit_or
bit_or-IsBitwise = record {
  on_digits = max;
  zeros = bit_or-bitwise 0 0;
  step = bit_or_step;
  small = λ x y hx hy. omega arith;
}

pub bit_and-IsBitwise : IsBitwise bit_and
bit_and-IsBitwise = record {
  on_digits = min;
  zeros = bit_and-bitwise 0 0;
  step = λ x y.
      bit_and-bitwise x y
      ∙ digits_step (λ b. zero) min x y (λ b. omega arith)
      ∙ ap (λ (t : ℕ). t * 2 + min (x % 2) (y % 2)) (sym (bit_and-bitwise (x / 2) (y / 2)));
  small = λ x y hx hy. omega arith;
}

differ_lt : (x y : ℕ) → x < 2 → y < 2 → differ x y < 2
differ_lt zero y hx hy = hy
differ_lt (suc x) zero hx hy = hx
differ_lt (suc x) (suc y) hx hy = differ_lt x y (omega arith) (omega arith)

pub bit_xor-IsBitwise : IsBitwise bit_xor
bit_xor-IsBitwise = record {
  on_digits = differ;
  zeros = bit_xor-bitwise 0 0;
  step = λ x y.
      bit_xor-bitwise x y
      ∙ digits_step (λ b. b) differ x y (λ b. omega arith)
      ∙ ap (λ (t : ℕ). t * 2 + differ (x % 2) (y % 2)) (sym (bit_xor-bitwise (x / 2) (y / 2)));
  small = differ_lt;
}

module _ (op : ℕ → ℕ → ℕ) (bitwise : IsBitwise op) where
  -- The low `k` bits and the others, each on their own.
  pub bitwise_split :
      (k x y p q : ℕ)
      → x < 2 ^ k
      → y < 2 ^ k
      → op (x + p * 2 ^ k) (y + q * 2 ^ k) ≡ op x y + op p q * 2 ^ k
  bitwise_split zero x y p q hx hy =
      let zx : x ≡ 0 = omega arith in
      let zy : y ≡ 0 = omega arith in
      let at_p : 0 + p * 2 ^ 0 ≡ p = omega arith in
      let at_q : 0 + q * 2 ^ 0 ≡ q = omega arith in
      rw (zx, zy, at_p, at_q, bitwise.zeros) (omega arith)
  bitwise_split (suc k) x y p q hx hy =
      let w : ℕ = 2 ^ k in
      let more : 2 ^ suc k ≡ 2 * w = omega (arith, two-pow-succ k) in
      let s : ℕ = p * w in
      let t : ℕ = q * w in
      let low_x : x / 2 < w = omega (arith, more) in
      let low_y : y / 2 < w = omega (arith, more) in
      let at_p : p * 2 ^ suc k ≡ s * 2 = omega (arith, ap (λ (n : ℕ). p * n) more) in
      let at_q : q * 2 ^ suc k ≡ t * 2 = omega (arith, ap (λ (n : ℕ). q * n) more) in
      let half_x : (x + s * 2) / 2 ≡ x / 2 + s = omega arith in
      let half_y : (y + t * 2) / 2 ≡ y / 2 + t = omega arith in
      let last_x : (x + s * 2) % 2 ≡ x % 2 = omega arith in
      let last_y : (y + t * 2) % 2 ≡ y % 2 = omega arith in
      let o : ℕ = op p q in
      let out : o * 2 ^ suc k ≡ o * w * 2 = omega (arith, ap (λ (n : ℕ). o * n) more) in
      rw (at_p, at_q, out)
        (bitwise.step (x + s * 2) (y + t * 2)
          ∙ rw (half_x, half_y, last_x, last_y)
              (omega (arith, bitwise_split k (x / 2) (y / 2) p q low_x low_y, bitwise.step x y)))

  pub bitwise_lt : (k x y : ℕ) → x < 2 ^ k → y < 2 ^ k → op x y < 2 ^ k
  bitwise_lt zero x y hx hy =
      let zx : x ≡ 0 = omega arith in
      let zy : y ≡ 0 = omega arith in rw (zx, zy, bitwise.zeros) (omega arith)
  bitwise_lt (suc k) x y hx hy =
      let more : 2 ^ suc k ≡ 2 * 2 ^ k = omega (arith, two-pow-succ k) in
      omega (
        arith,
        more,
        bitwise.step x y,
        bitwise.small (x % 2) (y % 2) (omega arith) (omega arith),
        bitwise_lt k (x / 2) (y / 2) (omega (arith, more)) (omega (arith, more)),
      )
