-- ===== src/Rlp/Raw/Size.antt =====
-- What `read_size` reads: a big-endian number in its shortest form, of at least 56.
use native.Mathlib.Nat.{mul-lt-mul_of_pos_right, one-le-pow}
use native.Mathlib.Numerals.{towards_suc}
use go_fiscobcos.Base.{
  ℕ, zero, suc, ◌+◌, ◌*◌, ◌^◌, ◌≤◌, ◌<◌, ◌≡◌, ◌≢◌, ◌∙◌, refl, ap, List, [], ◌∷◌, ◌++◌, length, take,
  All, arith, IsByte, IsU64, be_value, ok, panic, bit_or, bit_or-eq-add, take-append, length-append,
  All-append,
}
use go_fiscobcos.Rlp.Head.{put_int, int_size}
use go_fiscobcos.Rlp.Head.Size.{put_int_lem, put_int_lead}
use go_fiscobcos.Rlp.Raw.{or_shifted, size_value, read_size}

-- 8 * (n - 1), …, 8, 0
shifts : ℕ → List ℕ
shifts zero = []
shifts (suc n) = (8 * n) ∷ shifts n

pow_byte : (n : ℕ) → 2 ^ (8 * suc n) ≡ 256 * 2 ^ (8 * n)
pow_byte n = let e : 8 * suc n ≡ 8 * n + 8 = omega arith in rw e (simp towards_suc (omega arith))

or_shifted-shifts :
    (n q : ℕ) (b : List ℕ)
    → All IsByte b
    → n ≤ length b
    → or_shifted b (shifts n) (q * 2 ^ (8 * n)) ≡ ok (be_value q (take n b))
unfolding or_shifted shifts
or_shifted-shifts zero q [] h m = ap ok (omega arith)
or_shifted-shifts zero q (x ∷ b) h m = ap ok (omega arith)
or_shifted-shifts (suc n) q [] h m = absurd (omega arith)
or_shifted-shifts (suc n) q (x ∷ b) h m =
    let p : ℕ = 2 ^ (8 * n) in
    let fits : x * p < 2 ^ (8 * suc n) =
      rw pow_byte (mul-lt-mul_of_pos_right h.0 (one-le-pow (8 * n) 2 (omega arith))) in
    let joined : bit_or (q * 2 ^ (8 * suc n)) (x * p) ≡ (q * 256 + x) * p =
      bit_or-eq-add (8 * suc n) q (x * p) fits
      ∙ omega (arith, ap (λ (t : ℕ). q * t) (pow_byte n)) in
    ap (or_shifted b (shifts n)) joined ∙ or_shifted-shifts n (q * 256 + x) b h.1 (omega arith)

size_value-shifts :
    (b : List ℕ) (n : ℕ) → 1 ≤ n → n ≤ 8 → size_value b n ≡ or_shifted b (shifts n) 0
unfolding size_value shifts
size_value-shifts b zero lo hi = absurd (omega arith)
size_value-shifts b (suc zero) lo hi = refl
size_value-shifts b (suc (suc zero)) lo hi = refl
size_value-shifts b (suc (suc (suc zero))) lo hi = refl
size_value-shifts b (suc (suc (suc (suc zero)))) lo hi = refl
size_value-shifts b (suc (suc (suc (suc (suc zero))))) lo hi = refl
size_value-shifts b (suc (suc (suc (suc (suc (suc zero)))))) lo hi = refl
size_value-shifts b (suc (suc (suc (suc (suc (suc (suc zero))))))) lo hi = refl
size_value-shifts b (suc (suc (suc (suc (suc (suc (suc (suc zero)))))))) lo hi = refl
size_value-shifts b (suc (suc (suc (suc (suc (suc (suc (suc (suc n))))))))) lo hi =
    absurd (omega arith)

-- The switch of readSize computes the big-endian value of the first `n` bytes.
pub size_value-be_value :
    (b : List ℕ) (n : ℕ)
    → All IsByte b
    → 1 ≤ n
    → n ≤ 8
    → n ≤ length b
    → size_value b n ≡ ok (be_value 0 (take n b))
size_value-be_value b n h lo hi m =
    let e : 0 * 2 ^ (8 * n) ≡ 0 = omega arith in
    size_value-shifts b n lo hi ∙ rw e at (or_shifted-shifts n 0 b h m)

pub read_size-ne-panic : (b : List ℕ) (n : ℕ) → All IsByte b → 1 ≤ n → n ≤ 8 → read_size b n ≢ panic
unfolding read_size
read_size-ne-panic [] n h lo hi = ground arith
read_size-ne-panic (x ∷ b) n h lo hi = ground (arith, size_value-be_value (x ∷ b) n)

-- What a successful readSize has read.
pub read_size_inv :
    (b : List ℕ) (n s : ℕ)
    → All IsByte b
    → 1 ≤ n
    → n ≤ 8
    → read_size b n ≡ ok s
    → (n ≤ length b)
      × (s ≡ be_value 0 (take n b))
      × (56 ≤ s)
      × (x : ℕ) × (t : List ℕ) × (b ≡ x ∷ t)
      × (0 < x)
unfolding read_size
read_size_inv [] n s h lo hi e = ground arith
read_size_inv (x ∷ b) n s h lo hi e =
    let e' = size_value-be_value (x ∷ b) n h lo hi in
    (ground (arith, e'), ground (arith, e'), ground (arith, e'), x, b, refl, ground (arith, e'))

read_size-digits :
    (x : ℕ) (t rest : List ℕ)
    → All IsByte ((x ∷ t) ++ rest)
    → length (x ∷ t) ≤ 8
    → 0 < x
    → 56 ≤ be_value 0 (x ∷ t)
    → read_size ((x ∷ t) ++ rest) (length (x ∷ t)) ≡ ok (be_value 0 (x ∷ t))
unfolding read_size
read_size-digits x t rest h short pos lo = ground (
  arith,
  size_value-be_value ((x ∷ t) ++ rest) (length (x ∷ t)) h (omega arith) short
      (omega (arith, length-append t rest)),
  take-append t rest,
  length-append t rest,
)

-- readSize reads back what putint wrote.
pub read_size-put_int :
    (s : ℕ) (rest : List ℕ)
    → IsU64 s
    → 56 ≤ s
    → All IsByte rest
    → read_size (put_int s ++ rest) (length (put_int s)) ≡ ok s
read_size-put_int s rest h lo hr =
    let (x, t, e, pos) = put_int_lead s h (omega arith) in
    let (len, value, some_bytes, few, bytes) = put_int_lem s h in
    let value' : be_value 0 (x ∷ t) ≡ s = rw e at value in
    let len' : length (x ∷ t) ≡ int_size s = rw e at len in
    rw e (
      read_size-digits x t rest (All-append IsByte (x ∷ t) rest (rw e at bytes) hr) (omega arith)
        pos (omega arith)
      ∙ ap ok value')
