-- ===== src/Math/Exp.antt =====
-- common/math/big.go: Exp computes a power modulo 2 ^ 256, and squares its base in place.
use mathlib.Core.Path.{subst}
use mathlib.Core.WellFounded.{Acc}
use native.Mathlib.Decide.{dec_lt, ℕ_discrete}
use native.Mathlib.Nat.{
  pow-zero, pow-suc, pow-succ', mul_assoc, mul-one, one-mul, two-pow-succ, mod-mod, mod-eq_of_lt,
}
use go_fiscobcos.Base.{
  ℕ, zero, suc, ◌+◌, ◌*◌, ◌/◌, ◌%◌, ◌^◌, ◌<◌, ◌≡◌, ◌∙◌, sym, ap, List, [], ◌∷◌, length, All, IsU64,
  ◌==◌, if◌then◌else◌, arith, lt_wf,
}
use go_fiscobcos.Math.{exp_word, exp_words, words_acc, words, exp}
use go_fiscobcos.Math.Powers.{mod-mul, mod-pow, pow-add, pow-mul}

-- The number that words stand for, the lowest first.
abbrev pub word_value : List ℕ → ℕ
word_value [] = 0
word_value (w ∷ ws) = w + 2 ^ 64 * word_value ws

power_one : (b : ℕ) → b ^ 1 ≡ b
power_one b = pow-suc b 0 ∙ ap (λ (x : ℕ). x * b) (pow-zero b) ∙ one-mul b

-- What a part of the loop does: it multiplies by the `e`-th power of the base, and raises the base
-- to the `k`-th power.
abbrev Powers : ℕ → ℕ → ℕ → ℕ → ℕ × ℕ → Type 0
Powers result base e k out =
    (out.0 % 2 ^ 256 ≡ result * base ^ e % 2 ^ 256)
    × (out.1 % 2 ^ 256 ≡ base ^ k % 2 ^ 256)
    × (result < 2 ^ 256 → out.0 < 2 ^ 256)

-- One part after another.
Powers-trans :
    (r b d k e l : ℕ) (mid out : ℕ × ℕ)
    → Powers r b d k mid
    → Powers mid.0 mid.1 e l out
    → Powers r b (d + k * e) (k * l) out
Powers-trans r b d k e l mid out (p, q, small) (p', q', small') =
    let m : ℕ = 2 ^ 256 in
    let split : b ^ (d + k * e) ≡ b ^ d * (b ^ k) ^ e =
      pow-add b d (k * e) ∙ ap (λ (x : ℕ). b ^ d * x) (pow-mul b k e) in
    let product =
      mod-mul mid.0 (r * b ^ d) (mid.1 ^ e) ((b ^ k) ^ e) m p (mod-pow mid.1 (b ^ k) e m q) in
    (
      p'
          ∙ product
          ∙ ap (λ (x : ℕ). x % m)
              (mul_assoc r (b ^ d) ((b ^ k) ^ e) ∙ ap (λ (x : ℕ). r * x) (sym split)),
      q' ∙ mod-pow mid.1 (b ^ k) l m q ∙ ap (λ (x : ℕ). x % m) (sym (pow-mul b k l)),
      λ h. small' (small h),
    )

square : (b : ℕ) → b * b % 2 ^ 256 % 2 ^ 256 ≡ b ^ 2 % 2 ^ 256
square b =
    mod-mod (b * b) (2 ^ 256)
    ∙ ap (λ (x : ℕ). x % 2 ^ 256) (sym (pow-suc b 1 ∙ ap (λ (x : ℕ). x * b) (power_one b)))

-- A bit of the exponent.
Powers-clear : (r b : ℕ) → Powers r b 0 2 (r, b * b % 2 ^ 256)
Powers-clear r b = (
  ap (λ (x : ℕ). x % 2 ^ 256) (sym (ap (λ (x : ℕ). r * x) (pow-zero b) ∙ mul-one r)),
  square b,
  λ h. h,
)

Powers-set : (r b : ℕ) → Powers r b 1 2 (r * b % 2 ^ 256, b * b % 2 ^ 256)
Powers-set r b = (
  mod-mod (r * b) (2 ^ 256) ∙ ap (λ (x : ℕ). r * x % 2 ^ 256) (sym (power_one b)),
  square b,
  λ h. omega arith,
)

Powers-bit :
    (w r b : ℕ) → Powers r b (w % 2) 2 (if w % 2 == 1 then r * b % 2 ^ 256 else r, b * b % 2 ^ 256)
Powers-bit w r b = elim (ℕ_discrete (w % 2) 1) [
  | yes e ↦ rw e (Powers-set r b)
  | no h ↦ let e : w % 2 ≡ 0 = omega arith in rw e (Powers-clear r b)
]

-- The number that the `k` lowest bits stand for.
abbrev low_bits : ℕ → ℕ → ℕ
low_bits zero w = 0
low_bits (suc k) w = w % 2 + 2 * low_bits k (w / 2)

low_bits-all : (k w : ℕ) → w < 2 ^ k → low_bits k w ≡ w
low_bits-all zero w h = omega arith
low_bits-all (suc k) w h = omega (arith, low_bits-all k (w / 2) (omega (arith, two-pow-succ k)))

Powers-word : (k w r b : ℕ) → Powers r b (low_bits k w) (2 ^ k) (exp_word k w r b)
unfolding exp_word
Powers-word zero w r b = (
  ap (λ (x : ℕ). x % 2 ^ 256) (sym (ap (λ (x : ℕ). r * x) (pow-zero b) ∙ mul-one r)),
  ap (λ (x : ℕ). x % 2 ^ 256) (sym (power_one b)),
  λ h. h,
)
Powers-word (suc k) w r b =
    let mid : ℕ × ℕ = (if w % 2 == 1 then r * b % 2 ^ 256 else r, b * b % 2 ^ 256) in
    let doubled : 2 * 2 ^ k ≡ 2 ^ suc k = omega (arith, two-pow-succ k) in
    subst (λ (l : ℕ). Powers r b (low_bits (suc k) w) l (exp_word (suc k) w r b)) doubled
      (Powers-trans r b (w % 2) 2 (low_bits k (w / 2)) (2 ^ k) mid (exp_word k (w / 2) mid.0 mid.1)
        (Powers-bit w r b) (Powers-word k (w / 2) mid.0 mid.1))

Powers-words :
    (ws : List ℕ) (r b : ℕ)
    → All IsU64 ws
    → Powers r b (word_value ws) ((2 ^ 64) ^ length ws) (exp_words ws r b)
unfolding exp_words
Powers-words [] r b h = (
  ap (λ (x : ℕ). x % 2 ^ 256) (sym (ap (λ (x : ℕ). r * x) (pow-zero b) ∙ mul-one r)),
  ap (λ (x : ℕ). x % 2 ^ 256) (sym (power_one b)),
  λ h. h,
)
Powers-words (w ∷ ws) r b (u, h) =
    let mid : ℕ × ℕ = exp_word 64 w r b in
    let first : Powers r b w (2 ^ 64) mid =
      subst (λ (e : ℕ). Powers r b e (2 ^ 64) mid) (low_bits-all 64 w u) (Powers-word 64 w r b) in
    subst (λ (l : ℕ). Powers r b (word_value (w ∷ ws)) l (exp_words (w ∷ ws) r b))
      (sym (pow-succ' (2 ^ 64) (length ws)))
      (Powers-trans r b w (2 ^ 64) (word_value ws) ((2 ^ 64) ^ length ws) mid
        (exp_words ws mid.0 mid.1) first (Powers-words ws mid.0 mid.1 h))

words_acc-more :
    (n : ℕ) (ws : List ℕ) (w : Acc ◌<◌ n)
    → 0 < n
    → ((w' : Acc ◌<◌ (n / 2 ^ 64)) → words_acc (n / 2 ^ 64) w' ≡ ws)
    → words_acc n w ≡ n % 2 ^ 64 ∷ ws
unfolding words_acc
words_acc-more n ws (Acc.intro _ smaller) above inner =
    grind (arith, above, λ (p : n / 2 ^ 64 < n). inner (smaller (n / 2 ^ 64) p))

words_acc-zero : (n : ℕ) (w : Acc ◌<◌ n) → n ≡ 0 → words_acc n w ≡ []
unfolding words_acc
words_acc-zero n (Acc.intro _ smaller) e = grind (arith, e)

-- The words of a number, whatever the accessibility.
pub words_lem :
    (n : ℕ)
    → Acc ◌<◌ n
    → (ws : List ℕ) × ((w : Acc ◌<◌ n) → words_acc n w ≡ ws) × (word_value ws ≡ n) × All IsU64 ws
words_lem n (Acc.intro _ smaller) = elim (dec_lt 0 n) [
  | yes above ↦
      let (ws, e, value, u) = words_lem (n / 2 ^ 64) (smaller (n / 2 ^ 64) (omega arith)) in
      (n % 2 ^ 64 ∷ ws, λ w. words_acc-more n ws w above e, omega (arith, value), (omega arith, u))
  | no h ↦ let z : n ≡ 0 = omega arith in ([], λ w. words_acc-zero n w z, sym z, tt)
]

-- For a base and an exponent that are not negative, Exp returns the power modulo 2 ^ 256, and
-- leaves in the caller's base a number that is, modulo 2 ^ 256, the base raised to the power 2
-- ^ 64 once for every word of the exponent.
pub exp-pow :
    (base exponent : ℕ)
    → ((exp base exponent).0 ≡ base ^ exponent % 2 ^ 256)
      × ((exp base exponent).1 % 2 ^ 256 ≡ base ^ (2 ^ 64) ^ length (words exponent) % 2 ^ 256)
unfolding exp words
exp-pow base exponent =
    let (ws, e, value, u) = words_lem exponent (lt_wf.apply exponent) in
    let here : words exponent ≡ ws = e (lt_wf.apply exponent) in
    let (p, q, small) = Powers-words ws 1 base u in
    let power : (exp_words ws 1 base).0 ≡ base ^ exponent % 2 ^ 256 =
      sym (mod-eq_of_lt (small (omega arith)))
      ∙ p
      ∙ ap (λ (x : ℕ). x % 2 ^ 256)
          (one-mul (base ^ word_value ws) ∙ ap (λ (x : ℕ). base ^ x) value) in
    rw here (power, q)
