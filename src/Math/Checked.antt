-- ===== src/Math/Checked.antt =====
-- common/math/integer.go: the checked operations are exact where they report no overflow.
use native.Mathlib.Decide.{dec_lt}
use native.Mathlib.Nat.{mul_comm, zero-mul, mul-zero, div-lt_iff_lt-mul}
use go_fiscobcos.Base.{
  ℕ, ◌+◌, ◌-◌, ◌*◌, ◌/◌, ◌%◌, ◌^◌, ◌≤◌, ◌<◌, ◌≡◌, ap, ◌∙◌, ◌⊎◌, inl, inr, ◌↔◌, true, false, IsU64,
  arith,
}
use go_fiscobcos.Math.{max_uint64, safe_sub, safe_add, safe_mul}

-- On uint64 values, SafeSub returns the difference and no overflow where it is not negative,
-- and otherwise the difference plus 2 ^ 64 and an overflow.
pub safe_sub_cases :
    (x y : ℕ)
    → IsU64 x
    → IsU64 y
    → ((y ≤ x) × (safe_sub x y ≡ (x - y, false)))
      ⊎ ((x < y) × (safe_sub x y ≡ (x + 2 ^ 64 - y, true)))
unfolding safe_sub
safe_sub_cases x y ux uy = ground arith

-- On uint64 values, SafeAdd returns the sum and no overflow where the sum is below 2 ^ 64, and
-- otherwise the sum less 2 ^ 64 and an overflow.
pub safe_add_cases :
    (x y : ℕ)
    → IsU64 x
    → IsU64 y
    → ((x + y < 2 ^ 64) × (safe_add x y ≡ (x + y, false)))
      ⊎ ((2 ^ 64 ≤ x + y) × (safe_add x y ≡ (x + y - 2 ^ 64, true)))
unfolding safe_add
safe_add_cases x y ux uy = ground arith

-- On uint64 values, SafeMul returns the product and no overflow where the product is below 2 ^
-- 64, and otherwise its low 64 bits and an overflow.
pub safe_mul_cases :
    (x y : ℕ)
    → IsU64 x
    → IsU64 y
    → ((x * y < 2 ^ 64) × (safe_mul x y ≡ (x * y, false)))
      ⊎ ((2 ^ 64 ≤ x * y) × (safe_mul x y ≡ (x * y % 2 ^ 64, true)))
unfolding safe_mul
safe_mul_cases x y ux uy = elim (dec_lt 0 x) [
  | no h ↦
      let z : x ≡ 0 = omega arith in
      let nothing : x * y ≡ 0 = ap (λ (v : ℕ). v * y) z ∙ zero-mul y in
      inl (omega (arith, nothing), ground (arith, z, nothing))
  | yes hx ↦ elim (dec_lt 0 y) [
    | no h ↦
        let z : y ≡ 0 = omega arith in
        let nothing : x * y ≡ 0 = rw z (mul-zero x) in
        inl (omega (arith, nothing), ground (arith, hx, z, nothing))
    | yes hy ↦
        let test : (max_uint64 / x < y) ↔ (max_uint64 < y * x) = div-lt_iff_lt-mul hx in
        let swap = mul_comm x y in
        elim (dec_lt max_uint64 (y * x)) [
          | yes over ↦
              let high = test.1 over in inr (omega (arith, swap), ground (arith, high, hx, hy))
          | no fits ↦
              let low : x * y < 2 ^ 64 = omega (arith, swap) in
              let quiet : y ≤ max_uint64 / x = le_of_not (λ h. fits (test.0 h)) in
              inl (low, ground (arith, quiet, low, hx, hy))
        ]
  ]
]
  where
    le_of_not : {a b : ℕ} → ¬ (a < b) → b ≤ a
    le_of_not h = omega arith
