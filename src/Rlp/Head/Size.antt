-- ===== src/Rlp/Head/Size.antt =====
-- `put_int` writes the shortest big-endian form, `int_size` and `head_size` count its bytes.
use mathlib.Core.WellFounded.{Acc}
use native.Mathlib.Nat.{pow-suc, one-le-pow, mul-le-mul_right}
use native.Mathlib.Decide.{dec_lt, dec_le}
use go_fiscobcos.Base.{
  lt_wf, ◌⊎◌, inl, inr, ℕ, zero, suc, ◌+◌, ◌*◌, ◌/◌, ◌^◌, ◌≤◌, ◌<◌, ◌≡◌, ◌∙◌, refl, List, [], ◌∷◌,
  length, All, arith, IsByte, IsU64, be_bytes, be_value, length-be_bytes, be_bytes-IsByte,
  be_value-be_bytes, be_value-lt, be_value-ge, be_bytes-be_value, be_bytes_lead,
}
use go_fiscobcos.Rlp.Head.{put_int, int_size_loop, int_size, head_size, put_head}

int_size_loop_lem :
    (k size i : ℕ) (w : Acc ◌<◌ i)
    → 256 ^ k ≤ i
    → i < 256 ^ suc k
    → int_size_loop size i w ≡ size + k
unfolding int_size_loop
int_size_loop_lem zero size i (Acc.intro _ smaller) lo hi = ground arith
int_size_loop_lem (suc k) size i (Acc.intro _ smaller) lo hi =
    let lo' : 256 ^ k ≤ i / 256 = omega (arith, pow-suc 256 k) in
    let hi' : i / 256 < 256 ^ suc k = omega (arith, pow-suc 256 (suc k)) in
    let pos : 0 < i / 256 = omega (arith, one-le-pow k 256 (omega arith)) in
    grind (
      arith,
      pos,
      λ (p : i / 256 < i). int_size_loop_lem k (size + 1) (i / 256) (smaller (i / 256) p) lo' hi',
    )

-- `k + 1` bytes, for a number of `k + 1` digits base 256.
int_size-digits : (k i : ℕ) → 256 ^ k ≤ i → i < 256 ^ suc k → int_size i ≡ k + 1
unfolding int_size
int_size-digits k i lo hi = int_size_loop_lem k 1 i (lt_wf.apply i) lo hi ∙ omega arith

int_size-byte : (i : ℕ) → i < 256 → int_size i ≡ 1
unfolding int_size int_size_loop lt_wf dec_lt
int_size-byte i h = ground arith

-- `i` has `k + 1` digits base 256; the number 0 has one.
IsWide : ℕ → ℕ → Type 0
IsWide k i = ((k ≡ 0) ⊎ (256 ^ k ≤ i)) × (i < 256 ^ suc k)

int_size-IsWide : (k i : ℕ) → IsWide k i → int_size i ≡ k + 1
unfolding IsWide
int_size-IsWide k i (inl e, hi) = rw e (int_size-byte i (rw e at hi))
int_size-IsWide k i (inr lo, hi) = int_size-digits k i lo hi

put_int-IsWide : (k i : ℕ) → k < 8 → IsWide k i → put_int i ≡ be_bytes (suc k) i
unfolding put_int IsWide
put_int-IsWide zero i h (lo, hi) = ground arith
put_int-IsWide (suc zero) i h (lo, hi) = ground arith
put_int-IsWide (suc (suc zero)) i h (lo, hi) = ground arith
put_int-IsWide (suc (suc (suc zero))) i h (lo, hi) = ground arith
put_int-IsWide (suc (suc (suc (suc zero)))) i h (lo, hi) = ground arith
put_int-IsWide (suc (suc (suc (suc (suc zero))))) i h (lo, hi) = ground arith
put_int-IsWide (suc (suc (suc (suc (suc (suc zero)))))) i h (lo, hi) = ground arith
put_int-IsWide (suc (suc (suc (suc (suc (suc (suc zero))))))) i h (lo, hi) = ground arith
put_int-IsWide (suc (suc (suc (suc (suc (suc (suc (suc k)))))))) i h (lo, hi) = absurd (omega arith)

IsWide-of_below : (n i : ℕ) → i < 256 ^ suc n → (k : ℕ) × ((k < suc n) × IsWide k i)
unfolding IsWide
IsWide-of_below zero i h = (0, (omega arith, (inl refl, h)))
IsWide-of_below (suc n) i h = elim (dec_le (256 ^ suc n) i) [
  | yes lo ↦ (suc n, (omega arith, (inr lo, h)))
  | no hi ↦ let (k, (small, wide)) = IsWide-of_below n i (omega arith) in (k, (omega arith, wide))
]

-- A uint64 has 1 to 8 digits.
IsWide-u64 : (i : ℕ) → IsU64 i → (k : ℕ) × ((k < 8) × IsWide k i)
IsWide-u64 i h = IsWide-of_below 7 i h

-- What putint writes: as many bytes as intsize counts, 1 to 8 of them, which denote the number.
pub put_int_lem :
    (i : ℕ)
    → IsU64 i
    → (length (put_int i) ≡ int_size i)
      × (be_value 0 (put_int i) ≡ i)
      × (1 ≤ int_size i)
      × (int_size i ≤ 8)
      × All IsByte (put_int i)
put_int_lem i h =
    let (k, (small, wide)) = IsWide-u64 i h in
    let e = put_int-IsWide k i small wide in
    let n = int_size-IsWide k i wide in
    (
      rw (e, n) (omega (arith, length-be_bytes (suc k) i)),
      rw e (be_value-be_bytes (suc k) i (unfold IsWide in wide.1)),
      omega (arith, n),
      omega (arith, n),
      rw e (be_bytes-IsByte (suc k) i),
    )

-- There is no leading zero byte.
pub put_int_lead :
    (i : ℕ) → IsU64 i → 0 < i → (x : ℕ) × (t : List ℕ) × (put_int i ≡ x ∷ t) × (0 < x)
unfolding IsWide
put_int_lead i h pos =
    let (k, (small, wide)) = IsWide-u64 i h in
    let (x, t, e, lead) = lead_of k wide in (x, t, put_int-IsWide k i small wide ∙ e, lead)
  where
    lead_of : (k : ℕ) → IsWide k i → (x : ℕ) × (t : List ℕ) × (be_bytes (suc k) i ≡ x ∷ t) × (0 < x)
    lead_of k (inl e, hi) = rw e (be_bytes_lead 0 i pos (rw e at hi))
    lead_of k (inr lo, hi) = be_bytes_lead k i lo hi

-- Bytes with no leading zero are what putint writes for the number that they denote.
pub put_int-be_value :
    (b : ℕ) (bs : List ℕ)
    → IsByte b
    → All IsByte bs
    → 0 < b
    → length bs < 8
    → put_int (be_value 0 (b ∷ bs)) ≡ b ∷ bs
unfolding IsWide
put_int-be_value b bs hb hbs pos short =
    put_int-IsWide (length bs) (be_value 0 (b ∷ bs)) short wide
    ∙ be_bytes-be_value (b ∷ bs) (hb, hbs)
  where
    lo : 256 ^ length bs ≤ be_value 0 (b ∷ bs)
    lo = omega (arith, mul-le-mul_right (256 ^ length bs) pos, be_value-ge (0 * 256 + b) bs)

    wide : IsWide (length bs) (be_value 0 (b ∷ bs))
    wide = (inr lo, omega (arith, be_value-lt 0 (b ∷ bs) (hb, hbs)))

pub put_head_short :
    (small large n : ℕ) → small < 200 → n < 56 → put_head small large n ≡ (small + n) ∷ []
unfolding put_head
put_head_short small large n hs h = ground arith

pub put_head_long :
    (small large n : ℕ)
    → large < 248
    → 56 ≤ n
    → IsU64 n
    → put_head small large n ≡ (large + length (put_int n)) ∷ put_int n
unfolding put_head
put_head_long small large n hl h u = ground (arith, put_int_lem n)

-- For a size below 2 ^ 64, headsize is the number of bytes that puthead writes, whatever the
-- tags, and lies between 1 and 9.
pub length-put_head :
    (small large n : ℕ)
    → IsU64 n
    → (length (put_head small large n) ≡ head_size n) × (1 ≤ head_size n) × (head_size n ≤ 9)
unfolding put_head head_size
length-put_head small large n u = ground (arith, put_int_lem n)

pub put_int_digits :
    (i : ℕ)
    → IsU64 i
    → 0 < i
    → (k : ℕ) × (256 ^ k ≤ i) × (i < 256 ^ suc k) × (put_int i ≡ be_bytes (suc k) i)
unfolding IsWide
put_int_digits i h pos =
    let (k, (small, wide)) = IsWide-u64 i h in
    (k, low_bound k wide, wide.1, put_int-IsWide k i small wide)
  where
    low_bound : (k : ℕ) → IsWide k i → 256 ^ k ≤ i
    low_bound k (inl e, hi) = rw e (omega arith)
    low_bound k (inr lo, hi) = lo

pub head_size_cases : (n : ℕ) → (n < 56 → head_size n ≡ 1) × (56 ≤ n → head_size n ≡ 1 + int_size n)
unfolding head_size
head_size_cases n = (λ h. ground arith, λ h. ground arith)

pub put_int-byte : (i : ℕ) → i < 256 → put_int i ≡ i ∷ []
unfolding put_int
put_int-byte i h = ground arith
