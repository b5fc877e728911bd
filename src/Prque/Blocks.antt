-- ===== src/Prque/Blocks.antt =====
-- Lists in blocks of one length, as one list.
use go_fiscobcos.Base.{
  ℕ, zero, suc, ◌+◌, ◌*◌, ◌<◌, ◌≡◌, ◌∙◌, refl, sym, ap, List, [], ◌∷◌, ◌++◌, length, get_elem?, set,
  get_elem?-front, get_elem?-back, set-front, set-back, All, replicate, map, Option, none, some,
  length-append, arith,
}

module _ {ℓ} {A : Type ℓ} where
  -- The rows one after the other.
  abbrev pub concat : List (List A) → List A
  concat [] = []
  concat (row ∷ rows) = row ++ concat rows

  module _ (w : ℕ) where
    -- Every row has the length `w`.
    abbrev pub HasWidth : List (List A) → Type 0
    HasWidth rows = All (λ row. length row ≡ w) rows

    pub length-concat :
        (rows : List (List A)) → HasWidth rows → length (concat rows) ≡ length rows * w
    length-concat [] h = omega arith
    length-concat (row ∷ rows) h =
        omega (arith, length-append row (concat rows), length-concat rows h.1, h.0)

    -- The entry at the offset `o` of the row `b`.
    pub get_elem?-concat :
        (rows : List (List A)) (b o : ℕ) (row : List A)
        → HasWidth rows
        → o < w
        → get_elem? rows b ≡ some row
        → get_elem? (concat rows) (b * w + o) ≡ get_elem? row o
    get_elem?-concat [] b o row h ho e = absurd cc
    get_elem?-concat (r ∷ rows) zero o row h ho e =
        let same : r ≡ row = cc in
        let at : 0 * w + o ≡ o = omega arith in
        rw (at, sym same) (get_elem?-front r (concat rows) o (omega (arith, h.0)))
    get_elem?-concat (r ∷ rows) (suc b) o row h ho e =
        let at : suc b * w + o ≡ length r + (b * w + o) = omega (arith, h.0) in
        rw at (get_elem?-back r (concat rows) (b * w + o) ∙ get_elem?-concat rows b o row h.1 ho e)

    pub concat-set :
        (rows : List (List A)) (b o : ℕ) (row : List A) (v : A)
        → HasWidth rows
        → o < w
        → get_elem? rows b ≡ some row
        → concat (set rows b (set row o v)) ≡ set (concat rows) (b * w + o) v
    concat-set [] b o row v h ho e = absurd cc
    concat-set (r ∷ rows) zero o row v h ho e =
        let same : r ≡ row = cc in
        let at : 0 * w + o ≡ o = omega arith in
        rw (at, sym same) (sym (set-front r (concat rows) o v (omega (arith, h.0))))
    concat-set (r ∷ rows) (suc b) o row v h ho e =
        let at : suc b * w + o ≡ length r + (b * w + o) = omega (arith, h.0) in
        rw at (
          ap (λ (t : List A). r ++ t) (concat-set rows b o row v h.1 ho e)
          ∙ sym (set-back r (concat rows) (b * w + o) v))

    pub HasWidth-set :
        (rows : List (List A)) (b : ℕ) (row : List A)
        → HasWidth rows
        → length row ≡ w
        → HasWidth (set rows b row)
    HasWidth-set [] b row h e = tt
    HasWidth-set (r ∷ rows) zero row h e = (e, h.1)
    HasWidth-set (r ∷ rows) (suc b) row h e = (h.0, HasWidth-set rows b row h.1 e)

    pub get_elem?-HasWidth :
        (rows : List (List A)) (b : ℕ) (row : List A)
        → HasWidth rows
        → get_elem? rows b ≡ some row
        → length row ≡ w
    get_elem?-HasWidth [] b row h e = absurd cc
    get_elem?-HasWidth (r ∷ rows) zero row h e =
        let same : r ≡ row = cc in ap length (sym same) ∙ h.0
    get_elem?-HasWidth (r ∷ rows) (suc b) row h e = get_elem?-HasWidth rows b row h.1 e

-- A row of `k` places of which the first hold the values of a list.
module _ {ℓ} {A : Type ℓ} where
  abbrev pub padded : List A → ℕ → List (Option A)
  padded a k = map some a ++ replicate k none

  -- The values that a row holds.
  abbrev pub values : List (Option A) → List A
  values [] = []
  values (none ∷ row) = values row
  values (some x ∷ row) = x ∷ values row

  values-replicate : (k : ℕ) → values (replicate k none) ≡ []
  values-replicate zero = refl
  values-replicate (suc k) = values-replicate k

  pub values-padded : (a : List A) (k : ℕ) → values (padded a k) ≡ a
  values-padded [] k = values-replicate k
  values-padded (x ∷ a) k = ap (◌∷◌ x) (values-padded a k)

  pub get_elem?-padded :
      (a : List A) (k i : ℕ) (x : A)
      → get_elem? a i ≡ some x
      → get_elem? (padded a k) i ≡ some (some x)
  get_elem?-padded [] k i x e = absurd cc
  get_elem?-padded (y ∷ a) k zero x e = ap some e
  get_elem?-padded (y ∷ a) k (suc i) x e = get_elem?-padded a k i x e

  pub set-padded :
      (a : List A) (k i : ℕ) (x : A)
      → i < length a
      → set (padded a k) i (some x) ≡ padded (set a i x) k
  set-padded [] k i x h = absurd (omega arith)
  set-padded (y ∷ a) k zero x h = refl
  set-padded (y ∷ a) k (suc i) x h = ap (◌∷◌ (some y)) (set-padded a k i x (omega arith))

  -- The first free place is taken, and the last taken place is freed.
  pub padded-added :
      (a : List A) (k : ℕ) (x : A)
      → set (padded a (suc k)) (length a) (some x) ≡ padded (a ++ x ∷ []) k
  padded-added [] k x = refl
  padded-added (y ∷ a) k x = ap (◌∷◌ (some y)) (padded-added a k x)

  pub padded-freed :
      (a : List A) (k : ℕ) (x : A) → set (padded (a ++ x ∷ []) k) (length a) none ≡ padded a (suc k)
  padded-freed [] k x = refl
  padded-freed (y ∷ a) k x = ap (◌∷◌ (some y)) (padded-freed a k x)

  pub padded-more : (a : List A) (k m : ℕ) → padded a k ++ replicate m none ≡ padded a (k + m)
  padded-more [] zero m = ap (λ (j : ℕ). replicate j none) (omega arith)
  padded-more [] (suc k) m =
      let at : suc k + m ≡ suc (k + m) = omega arith in rw at (ap (◌∷◌ none) (padded-more [] k m))
  padded-more (x ∷ a) k m = ap (◌∷◌ (some x)) (padded-more a k m)
