-- ===== src/Bitutil/Zeros.antt =====
-- common/bitutil/compress.go: slices of zero bytes.
use native.Mathlib.Decide.{ℕ_discrete}
use go_fiscobcos.Base.{
  ℕ, zero, suc, ◌-◌, ◌*◌, ◌/◌, ◌%◌, ◌≤◌, ◌<◌, ◌≡◌, ◌≢◌, ◌∙◌, refl, sym, ap, true, false, not, List,
  [], ◌∷◌, length, get_elem?, replicate, some, inl, inr, ◌⊎◌, arith,
}
use go_fiscobcos.Bitutil.{test_bit}
use go_fiscobcos.Bitutil.Bits.{nonzero_at, test_bit-zero, IsBitset}
use go_fiscobcos.Bitutil.Gather.{nonzeros, ==_false}

-- A bitset of a slice with a byte that is not 0 has one, too.
nonzeros_index :
    (bytes : List ℕ) (b : ℕ) (t : List ℕ)
    → nonzeros bytes ≡ b ∷ t
    → (j : ℕ) × (j < length bytes) × (nonzero_at bytes j ≡ true)
nonzeros_index [] b t e = cc
nonzeros_index (c ∷ bytes) b t e = elim (ℕ_discrete c 0) [
  | yes z ↦
      let skip : nonzeros (c ∷ bytes) ≡ nonzeros bytes = rw z refl in
      let (j, fits, one) = nonzeros_index bytes b t (sym skip ∙ e) in (suc j, omega arith, one)
  | no full ↦ (0, omega arith, ap not (==_false c full))
]

pub nonzeros-zero : (c : ℕ) (s : List ℕ) → nonzeros (c ∷ s) ≡ [] → (c ≡ 0) × (nonzeros s ≡ [])
nonzeros-zero c s e = ground (arith, e)

all_zero : (s : List ℕ) (i x : ℕ) → nonzeros s ≡ [] → get_elem? s i ≡ some x → x ≡ 0
all_zero [] i x e found = cc
all_zero (c ∷ s) zero x e found =
    let (z, rest) = nonzeros-zero c s e in let same : x ≡ c = cc in same ∙ z
all_zero (c ∷ s) (suc i) x e found = all_zero s i x (nonzeros-zero c s e).1 found

pub IsBitset-nonzeros :
    (s bytes : List ℕ) (b : ℕ) (t : List ℕ)
    → IsBitset s bytes
    → length bytes ≤ 8 * length s
    → nonzeros bytes ≡ b ∷ t
    → nonzeros s ≢ []
IsBitset-nonzeros s bytes b t bits fits e none_set =
    let (j, in_range, one) = nonzeros_index bytes b t e in
    let (x, found, bit) = bits j (omega arith) in
    let zero_byte = all_zero s (j / 8) x none_set found in
    let clear : test_bit x (7 - j % 8) ≡ false = rw zero_byte (test_bit-zero (7 - j % 8)) in cc

pub nonzeros-nil : (bytes : List ℕ) → nonzeros bytes ≡ [] → bytes ≡ replicate (length bytes) 0
nonzeros-nil [] e = refl
nonzeros-nil (c ∷ bytes) e =
    let (z, rest) = nonzeros-zero c bytes e in rw z (ap (◌∷◌ 0) (nonzeros-nil bytes rest))

pub nonzeros_cases :
    (bytes : List ℕ) → (nonzeros bytes ≡ []) ⊎ ((b : ℕ) × (t : List ℕ) × (nonzeros bytes ≡ b ∷ t))
nonzeros_cases bytes = of_list (nonzeros bytes)
  where
    of_list : (l : List ℕ) → (l ≡ []) ⊎ ((b : ℕ) × (t : List ℕ) × (l ≡ b ∷ t))
    of_list [] = inl refl
    of_list (b ∷ t) = inr (b, t, refl)
