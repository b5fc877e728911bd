-- ===== src/Bitutil/Bits.antt =====
-- common/bitutil/compress.go: the bits of a bitset, and which of them the bytes of a slice set.
use go_fiscobcos.Base.{
  ℕ, zero, suc, ◌+◌, ◌-◌, ◌*◌, ◌/◌, ◌%◌, ◌≤◌, ◌<◌, ◌≡◌, ◌≢◌, refl, ap, Bool, true, false, not, List,
  [], ◌∷◌, ◌++◌, length, ◌==◌, get_elem?, set, replicate, some, length-replicate, arith,
}
use go_fiscobcos.Bitutil.{test_bit, or_bit}

pub test_bit-or_bit : (k x : ℕ) → test_bit (or_bit x k) k ≡ true
test_bit-or_bit zero x = ground arith
test_bit-or_bit (suc k) x =
    let half : (or_bit (x / 2) k * 2 + x % 2) / 2 ≡ or_bit (x / 2) k = omega arith in
    rw half (test_bit-or_bit k (x / 2))

pub test_bit-or_bit_other : (k m x : ℕ) → k ≢ m → test_bit (or_bit x k) m ≡ test_bit x m
test_bit-or_bit_other zero zero x h = absurd (h refl)
test_bit-or_bit_other zero (suc m) x h =
    let half : (x / 2 * 2 + 1) / 2 ≡ x / 2 = omega arith in rw half refl
test_bit-or_bit_other (suc k) zero x h = ground arith
test_bit-or_bit_other (suc k) (suc m) x h =
    let half : (or_bit (x / 2) k * 2 + x % 2) / 2 ≡ or_bit (x / 2) k = omega arith in
    rw half (test_bit-or_bit_other k m (x / 2) (λ e. h (ap suc e)))

pub test_bit-zero : (k : ℕ) → test_bit 0 k ≡ false
test_bit-zero zero = refl
test_bit-zero (suc k) = test_bit-zero k

-- Whether the slice has a byte at this index that is not 0.
abbrev pub nonzero_at : List ℕ → ℕ → Bool
nonzero_at [] j = false
nonzero_at (b ∷ t) zero = not (b == 0)
nonzero_at (b ∷ t) (suc j) = nonzero_at t j

pub nonzero_at-other :
    (xs : List ℕ) (b j : ℕ) → j ≢ length xs → nonzero_at (xs ++ b ∷ []) j ≡ nonzero_at xs j
nonzero_at-other [] b zero h = absurd (h refl)
nonzero_at-other [] b (suc j) h = refl
nonzero_at-other (x ∷ xs) b zero h = refl
nonzero_at-other (x ∷ xs) b (suc j) h = nonzero_at-other xs b j (λ e. h (ap suc e))

pub nonzero_at-here : (xs t : List ℕ) (b : ℕ) → nonzero_at (xs ++ b ∷ t) (length xs) ≡ not (b == 0)
nonzero_at-here [] t b = refl
nonzero_at-here (x ∷ xs) t b = nonzero_at-here xs t b

pub nonzero_at-past : (xs : List ℕ) (j : ℕ) → length xs ≤ j → nonzero_at xs j ≡ false
nonzero_at-past [] j h = refl
nonzero_at-past (x ∷ xs) zero h = absurd (omega arith)
nonzero_at-past (x ∷ xs) (suc j) h = nonzero_at-past xs j (omega arith)

-- The bits of the bitset are those of the slice.
abbrev pub IsBitset : List ℕ → List ℕ → Type 0
IsBitset s bytes =
    (j : ℕ)
    → j < 8 * length s
    → (x : ℕ) × (get_elem? s (j / 8) ≡ some x) × (test_bit x (7 - j % 8) ≡ nonzero_at bytes j)

pub get_elem?-set : (s : List ℕ) (i v : ℕ) → i < length s → get_elem? (set s i v) i ≡ some v
get_elem?-set [] i v h = absurd (omega arith)
get_elem?-set (x ∷ s) zero v h = refl
get_elem?-set (x ∷ s) (suc i) v h = get_elem?-set s i v (omega arith)

pub get_elem?-set_other : (s : List ℕ) (i j v : ℕ) → i ≢ j → get_elem? (set s i v) j ≡ get_elem? s j
get_elem?-set_other [] i j v h = refl
get_elem?-set_other (x ∷ s) zero zero v h = absurd (h refl)
get_elem?-set_other (x ∷ s) zero (suc j) v h = refl
get_elem?-set_other (x ∷ s) (suc i) zero v h = refl
get_elem?-set_other (x ∷ s) (suc i) (suc j) v h = get_elem?-set_other s i j v (λ e. h (ap suc e))

get_elem?-replicate : (n i : ℕ) → i < n → get_elem? {A = ℕ} (replicate n 0) i ≡ some 0
get_elem?-replicate zero i h = absurd (omega arith)
get_elem?-replicate (suc n) zero h = refl
get_elem?-replicate (suc n) (suc i) h = get_elem?-replicate n i (omega arith)

pub IsBitset-replicate : (n : ℕ) → IsBitset (replicate n 0) []
IsBitset-replicate n j h = (
  0,
  get_elem?-replicate n (j / 8) (omega (arith, length-replicate {A = ℕ} n 0)),
  test_bit-zero (7 - j % 8),
)
