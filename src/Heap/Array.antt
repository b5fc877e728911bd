-- ===== src/Heap/Array.antt =====
-- Lists as arrays whose entries have keys: reading a key, writing, and exchanging two entries.
use mathlib.Core.List.{Perm, Permᴰ, Memᴰ}
use mathlib.Core.List.Perm
use mathlib.Core.Logic.{∥∥₁_elim}
use go_fiscobcos.Base.{
  sym, ℕ, zero, suc, ◌<◌, ◌≡◌, ◌≢◌, ◌∙◌, refl, ap, List, [], ◌∷◌, ◌++◌, length, get_elem?, set,
  length-set, ◌==◌, if◌then◌else◌, none, some, arith,
}

module _ {ℓ} {A : Type ℓ} where
  abbrev pub swapped : List A → ℕ → ℕ → List A
  swapped a i j = elim (get_elem? a i) [
    | none ↦ a
    | some x ↦ elim (get_elem? a j) [ none ↦ a | some y ↦ set (set a i y) j x ]
  ]

  abbrev pub key_at : (A → ℕ) → List A → ℕ → ℕ
  key_at key a i = elim (get_elem? a i) [ none ↦ 0 | some x ↦ key x ]

  pub entry : (a : List A) (i : ℕ) → i < length a → (x : A) × (get_elem? a i ≡ some x)
  entry [] i h = absurd (omega arith)
  entry (x ∷ a) zero h = (x, refl)
  entry (x ∷ a) (suc i) h = entry a i (omega arith)

  pub get_elem?-set :
      (a : List A) (i j : ℕ) (v : A)
      → i < length a
      → get_elem? (set a i v) j ≡ (if i == j then some v else get_elem? a j)
  get_elem?-set [] i j v h = absurd (omega arith)
  get_elem?-set (x ∷ a) zero zero v h = refl
  get_elem?-set (x ∷ a) zero (suc j) v h = ground arith
  get_elem?-set (x ∷ a) (suc i) zero v h = ground arith
  get_elem?-set (x ∷ a) (suc i) (suc j) v h = ground (arith, get_elem?-set a i j v (omega arith))

  pub swapped_def :
      (a : List A) (i j : ℕ) (x y : A)
      → get_elem? a i ≡ some x
      → get_elem? a j ≡ some y
      → swapped a i j ≡ set (set a i y) j x
  swapped_def a i j x y ex ey = ground (arith, ex, ey)

  -- The entry that is overwritten, with the rest.
  set-perm : (a : List A) (i : ℕ) (x v : A) → get_elem? a i ≡ some x → Perm (x ∷ set a i v) (v ∷ a)
  set-perm [] i x v e = cc
  set-perm (y ∷ a) zero x v e = let same : y ≡ x = cc in rw same (Perm.swap v x a)
  set-perm (y ∷ a) (suc i) x v e =
      Perm.trans (Perm.swap y x (set a i v))
        (Perm.trans (Perm.cons y (set-perm a i x v e)) (Perm.swap v y a))

  module _ (a : List A) (i j : ℕ) (hi : i < length a) (hj : j < length a) where
    pub length-swapped : length (swapped a i j) ≡ length a
    length-swapped =
        let (x, ex) = entry a i hi in
        let (y, ey) = entry a j hj in
        rw (swapped_def a i j x y ex ey) (length-set (set a i y) j x ∙ length-set a i y)

    pub key_at-swapped :
        (key : A → ℕ) (c : ℕ)
        → key_at key (swapped a i j) c
          ≡ (if j == c then key_at key a i else if i == c then key_at key a j else key_at key a c)
    key_at-swapped key c =
        let (x, ex) = entry a i hi in
        let (y, ey) = entry a j hj in
        let inside : j < length (set a i y) = omega (arith, length-set a i y) in
        ground (
          arith,
          ex,
          ey,
          swapped_def a i j x y ex ey,
          get_elem?-set (set a i y) j c x inside,
          get_elem?-set a i c y hi,
        )

    pub swapped-perm : Perm (swapped a i j) a
    swapped-perm =
        let (x, ex) = entry a i hi in
        let (y, ey) = entry a j hj in
        let second : get_elem? (set a i y) j ≡ some y =
          ground (arith, get_elem?-set a i j y hi, ey) in
        rw (swapped_def a i j x y ex ey)
          (Perm.cons_inv (Perm.trans (set-perm (set a i y) j y x second) (set-perm a i x y ex)))

    pub key_at-first : (key : A → ℕ) → key_at key (swapped a i j) i ≡ key_at key a j
    key_at-first key = ground (arith, key_at-swapped key i)

    pub key_at-second : (key : A → ℕ) → key_at key (swapped a i j) j ≡ key_at key a i
    key_at-second key = ground (arith, key_at-swapped key j)

    pub key_at-other :
        (key : A → ℕ) (c : ℕ) → c ≢ i → c ≢ j → key_at key (swapped a i j) c ≡ key_at key a c
    key_at-other key c ni nj = ground (arith, key_at-swapped key c, ni, nj)

    pub get_elem?-other : (c : ℕ) → c ≢ i → c ≢ j → get_elem? (swapped a i j) c ≡ get_elem? a c
    get_elem?-other c ni nj =
        let (x, ex) = entry a i hi in
        let (y, ey) = entry a j hj in
        let inside : j < length (set a i y) = omega (arith, length-set a i y) in
        ground (
          arith,
          ni,
          nj,
          swapped_def a i j x y ex ey,
          get_elem?-set (set a i y) j c x inside,
          get_elem?-set a i c y hi,
        )

    pub get_elem?-second : get_elem? (swapped a i j) j ≡ get_elem? a i
    get_elem?-second =
        let (x, ex) = entry a i hi in
        let (y, ey) = entry a j hj in
        let inside : j < length (set a i y) = omega (arith, length-set a i y) in
        ground (arith, swapped_def a i j x y ex ey, get_elem?-set (set a i y) j j x inside, ex)

  pub key_at-front :
      (key : A → ℕ) (a b : List A) (c : ℕ) → c < length a → key_at key (a ++ b) c ≡ key_at key a c
  key_at-front key [] b c h = absurd (omega arith)
  key_at-front key (x ∷ a) b zero h = refl
  key_at-front key (x ∷ a) b (suc c) h = key_at-front key a b c (omega arith)

  -- A list is the entries before its last one, and that one.
  pub last_split :
      (n : ℕ) (b : List A) (x : A)
      → length b ≡ suc n
      → get_elem? b n ≡ some x
      → (front : List A) × (b ≡ front ++ x ∷ []) × (length front ≡ n)
  last_split n [] x e e' = absurd (omega (arith, e))
  last_split zero (y ∷ []) x e e' = let same : y ≡ x = cc in ([], ap (λ (z : A). z ∷ []) same, refl)
  last_split zero (y ∷ z ∷ b) x e e' = absurd (omega (arith, e))
  last_split (suc n) (y ∷ b) x e e' =
      let (front, eq, size) = last_split n b x (omega (arith, e)) e' in
      (y ∷ front, ap (◌∷◌ y) eq, ap suc size)

pub get_elem?-Mem :
    {A : Type 0} (a : List A) (y : A) → Memᴰ y a → (i : ℕ) × (get_elem? a i ≡ some y)
get_elem?-Mem [] y m = elim m [ ]
get_elem?-Mem (x ∷ a) y (Memᴰ.head e) = (0, ap some (sym e))
get_elem?-Mem (x ∷ a) y (Memᴰ.tail m) = let (i, e) = get_elem?-Mem a y m in (suc i, e)

pub Mem-get_elem? : {A : Type 0} (a : List A) (i : ℕ) (y : A) → get_elem? a i ≡ some y → Memᴰ y a
Mem-get_elem? [] i y e = absurd cc
Mem-get_elem? (x ∷ a) zero y e = Memᴰ.head cc
Mem-get_elem? (x ∷ a) (suc i) y e = Memᴰ.tail (Mem-get_elem? a i y e)

length-Permᴰ : {A : Type 0} {a b : List A} → Permᴰ a b → length a ≡ length b
length-Permᴰ Permᴰ.nil = refl
length-Permᴰ (Permᴰ.cons x p) = ap suc (length-Permᴰ p)
length-Permᴰ (Permᴰ.swap x y) = refl
length-Permᴰ (Permᴰ.trans p q) = length-Permᴰ p ∙ length-Permᴰ q

pub length-Perm : {A : Type 0} {a b : List A} → Perm a b → length a ≡ length b
length-Perm p = ∥∥₁_elim p (hlevel) length-Permᴰ
