-- ===== src/Base/Bytes.antt =====
-- Bytes, machine words, and numbers in big-endian order.
mod Bits
mod Bitwise
pub use Bits.{zero-bit_or, bit_or-zero, bit_or-eq-add}
pub use Bitwise.{
  IsBitwise, bit_and-IsBitwise, bit_or-IsBitwise, bit_xor-IsBitwise, bitwise_split, bitwise_lt,
}
use Prim.Native.Nat.{ℕ, zero, suc, ◌+◌, ◌-◌, ◌*◌, ◌/◌, ◌%◌, ◌^◌, ◌≤◌, ◌<◌}
use mathlib.Core.Path.{◌≡◌, refl, ap, ◌∙◌}
use mathlib.Core.List.{List, [], ◌∷◌, ◌++◌, append-nil, append_assoc}
use native.Mathlib.Omega.{arith}
use native.Mathlib.Nat.{pow-suc, mul-le-mul_right, add-zero, zero-add}
use go_fiscobcos.Base.Lists.{length, length-append, All, All-append}

abbrev pub IsByte : ℕ → Type 0
IsByte b = b < 256

abbrev pub IsU64 : ℕ → Type 0
IsU64 v = v < 2 ^ 64

-- `x - y` on uint64; `-` on ℕ stops at 0.
abbrev pub sub_u64 : ℕ → ℕ → ℕ
sub_u64 x y = (x + 2 ^ 64 - y) % 2 ^ 64

-- The number whose digits, base 256, are those of `acc` and then the bytes.
abbrev pub be_value : ℕ → List ℕ → ℕ
be_value acc [] = acc
be_value acc (b ∷ bs) = be_value (acc * 256 + b) bs

-- The last `k` base-256 digits of a number, the highest first.
abbrev pub be_bytes : ℕ → ℕ → List ℕ
be_bytes zero i = []
be_bytes (suc k) i = be_bytes k (i / 256) ++ (i % 256) ∷ []

pub length-be_bytes : (k i : ℕ) → length (be_bytes k i) ≡ k
length-be_bytes zero i = refl
length-be_bytes (suc k) i =
    omega
      (arith, length-append (be_bytes k (i / 256)) ((i % 256) ∷ []), length-be_bytes k (i / 256))

pub be_bytes-IsByte : (k i : ℕ) → All IsByte (be_bytes k i)
be_bytes-IsByte zero i = tt
be_bytes-IsByte (suc k) i = All-append IsByte _ _ (be_bytes-IsByte k (i / 256)) (omega arith)

pub be_value-append :
    (acc : ℕ) (xs ys : List ℕ) → be_value acc (xs ++ ys) ≡ be_value (be_value acc xs) ys
be_value-append acc [] ys = refl
be_value-append acc (x ∷ xs) ys = be_value-append (acc * 256 + x) xs ys

pub be_value-be_bytes : (k i : ℕ) → i < 256 ^ k → be_value 0 (be_bytes k i) ≡ i
be_value-be_bytes zero i h = omega arith
be_value-be_bytes (suc k) i h =
    be_value-append 0 (be_bytes k (i / 256)) ((i % 256) ∷ [])
    ∙ omega (arith, be_value-be_bytes k (i / 256) (omega (arith, pow-suc 256 k)))

pub be_value-lt :
    (acc : ℕ) (bs : List ℕ) → All IsByte bs → be_value acc bs < (acc + 1) * 256 ^ length bs
be_value-lt acc [] h = omega arith
be_value-lt acc (b ∷ bs) h =
    let p : ℕ = 256 ^ length bs in
    let digit : acc * 256 + b + 1 ≤ (acc + 1) * 256 = omega arith in
    omega (
      arith,
      be_value-lt (acc * 256 + b) bs h.1,
      mul-le-mul_right p digit,
      ap (λ (t : ℕ). (acc + 1) * t) (pow-suc 256 (length bs)),
    )

be_bytes-be_value_add :
    (bs : List ℕ) (j acc : ℕ)
    → All IsByte bs
    → be_bytes (length bs + j) (be_value acc bs) ≡ be_bytes j acc ++ bs
be_bytes-be_value_add [] j acc h = rw (zero-add j, append-nil)
be_bytes-be_value_add (b ∷ bs) j acc h =
    let digits : be_bytes (suc j) (acc * 256 + b) ≡ be_bytes j acc ++ b ∷ [] = ground arith in
    let count : suc (length bs) + j ≡ length bs + suc j = omega arith in
    rw count (
      be_bytes-be_value_add bs (suc j) (acc * 256 + b) h.1
      ∙ ap (λ (l : List ℕ). l ++ bs) digits
      ∙ append_assoc (be_bytes j acc) (b ∷ []) bs)

pub be_bytes-be_value : (bs : List ℕ) → All IsByte bs → be_bytes (length bs) (be_value 0 bs) ≡ bs
be_bytes-be_value bs h = rw add-zero at (be_bytes-be_value_add bs 0 0 h)

-- The first byte is not 0 where the number has that many digits.
pub be_bytes_lead :
    (k i : ℕ)
    → 256 ^ k ≤ i
    → i < 256 ^ suc k
    → (x : ℕ) × (t : List ℕ) × (be_bytes (suc k) i ≡ x ∷ t) × (0 < x)
be_bytes_lead zero i lo hi = (i, [], ground arith, omega arith)
be_bytes_lead (suc k) i lo hi =
    let (x, t, e, pos) =
      be_bytes_lead k (i / 256) (omega (arith, pow-suc 256 k))
        (omega (arith, pow-suc 256 (suc k))) in
    (x, t ++ (i % 256) ∷ [], ap (λ (l : List ℕ). l ++ (i % 256) ∷ []) e, pos)

pub be_value-ge : (acc : ℕ) (bs : List ℕ) → acc * 256 ^ length bs ≤ be_value acc bs
be_value-ge acc [] = omega arith
be_value-ge acc (b ∷ bs) =
    let p : ℕ = 256 ^ length bs in
    let digit : acc * 256 ≤ acc * 256 + b = omega arith in
    omega (
      arith,
      be_value-ge (acc * 256 + b) bs,
      mul-le-mul_right p digit,
      ap (λ (t : ℕ). acc * t) (pow-suc 256 (length bs)),
    )
