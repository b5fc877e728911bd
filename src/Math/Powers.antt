-- ===== src/Math/Powers.antt =====
-- Powers and remainders, for common/math/big.go.
use native.Mathlib.Nat.{
  pow-zero, pow-suc, mul-suc, mul_comm, mul_assoc, mul-one, add-mul, mod-add-div,
  add-mul-mod_self_left,
}
use go_fiscobcos.Base.{ℕ, zero, suc, ◌+◌, ◌*◌, ◌/◌, ◌%◌, ◌^◌, ◌≡◌, ◌∙◌, sym, ap, arith}

pub mod-mul_left : (a b m : ℕ) → a % m * b % m ≡ a * b % m
mod-mul_left a b m =
    let whole : a * b ≡ a % m * b + m * (a / m * b) =
      ap (λ (x : ℕ). x * b) (sym (mod-add-div a m))
      ∙ add-mul (a % m) (m * (a / m)) b
      ∙ ap (λ (x : ℕ). a % m * b + x) (mul_assoc m (a / m) b) in
    sym (ap (λ (x : ℕ). x % m) whole ∙ add-mul-mod_self_left (a % m * b) m (a / m * b))

pub mod-mul_right : (a b m : ℕ) → a * (b % m) % m ≡ a * b % m
mod-mul_right a b m =
    ap (λ (x : ℕ). x % m) (mul_comm a (b % m))
    ∙ mod-mul_left b a m
    ∙ ap (λ (x : ℕ). x % m) (mul_comm b a)

-- Factors may be replaced by others with the same remainder.
pub mod-mul : (a a' b b' m : ℕ) → a % m ≡ a' % m → b % m ≡ b' % m → a * b % m ≡ a' * b' % m
mod-mul a a' b b' m ea eb =
    sym (mod-mul_left a b m)
    ∙ ap (λ (x : ℕ). x * b % m) ea
    ∙ mod-mul_left a' b m
    ∙ sym (mod-mul_right a' b m)
    ∙ ap (λ (x : ℕ). a' * x % m) eb
    ∙ mod-mul_right a' b' m

pub mod-pow : (a b n m : ℕ) → a % m ≡ b % m → a ^ n % m ≡ b ^ n % m
mod-pow a b zero m e = ap (λ (x : ℕ). x % m) (pow-zero a ∙ sym (pow-zero b))
mod-pow a b (suc n) m e =
    ap (λ (x : ℕ). x % m) (pow-suc a n)
    ∙ mod-mul (a ^ n) (b ^ n) a b m (mod-pow a b n m e) e
    ∙ ap (λ (x : ℕ). x % m) (sym (pow-suc b n))

pub pow-add : (b m n : ℕ) → b ^ (m + n) ≡ b ^ m * b ^ n
pow-add b m zero =
    ap (λ (x : ℕ). b ^ x) (omega arith)
    ∙ sym (mul-one (b ^ m))
    ∙ ap (λ (x : ℕ). b ^ m * x) (sym (pow-zero b))
pow-add b m (suc n) =
    ap (λ (x : ℕ). b ^ x) (omega arith)
    ∙ pow-suc b (m + n)
    ∙ ap (λ (x : ℕ). x * b) (pow-add b m n)
    ∙ mul_assoc (b ^ m) (b ^ n) b
    ∙ ap (λ (x : ℕ). b ^ m * x) (sym (pow-suc b n))

pub pow-mul : (b m n : ℕ) → b ^ (m * n) ≡ (b ^ m) ^ n
pow-mul b m zero = ap (λ (x : ℕ). b ^ x) (omega arith) ∙ pow-zero b ∙ sym (pow-zero (b ^ m))
pow-mul b m (suc n) =
    ap (λ (x : ℕ). b ^ x) (mul-suc m n)
    ∙ pow-add b (m * n) m
    ∙ ap (λ (x : ℕ). x * b ^ m) (pow-mul b m n)
    ∙ sym (pow-suc (b ^ m) n)
