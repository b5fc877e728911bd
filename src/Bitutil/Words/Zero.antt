-- ===== src/Bitutil/Words/Zero.antt =====
-- TestBytes by words finds what it finds by bytes.
use native.Mathlib.Nat.{suc-mul, div-add-mod'}
use go_fiscobcos.Base.{
  ℕ, zero, suc, ◌+◌, ◌-◌, ◌*◌, ◌/◌, ◌%◌, ◌≤◌, ◌≡◌, ◌∙◌, refl, sym, ap, Bool, true, false, not, List,
  [], ◌∷◌, ◌++◌, length, take, drop, append_assoc, length-append, length-take, length-drop,
  take-append-drop, ◌==◌, if◌then◌else◌, Outcome, ok, >>=-ok, arith,
}
use go_fiscobcos.Bitutil.Words.{
  Unsafe, word_value, test_byte_loop, test_word_loop, safe_test_bytes, fast_test_bytes, test_bytes,
}
use go_fiscobcos.Bitutil.Words.Memory.{load_back, load_word_lem}

-- A byte is not 0.
abbrev pub any_set : List ℕ → Bool
any_set [] = false
any_set (x ∷ p) = if x == 0 then any_set p else true

any_set-append : (a b : List ℕ) → any_set (a ++ b) ≡ (if any_set a then true else any_set b)
any_set-append [] b = refl
any_set-append (x ∷ a) b = ground (arith, any_set-append a b)

any_set-word_value : (a : List ℕ) → any_set a ≡ not (word_value a == 0)
any_set-word_value [] = refl
any_set-word_value (x ∷ a) = ground (arith, any_set-word_value a)

take-add : (m n : ℕ) (a : List ℕ) → take (m + n) a ≡ take m a ++ take n (drop m a)
take-add zero n a = ap (λ (t : ℕ). take t a) (omega arith)
take-add (suc m) n [] = let at : suc m + n ≡ suc (m + n) = omega arith in rw at (sym (take-nil n))
  where
    take-nil : (n : ℕ) → take {A = ℕ} n [] ≡ []
    take-nil zero = refl
    take-nil (suc n) = refl
take-add (suc m) n (x ∷ a) =
    let at : suc m + n ≡ suc (m + n) = omega arith in rw at (ap (◌∷◌ x) (take-add m n a))

go_on :
    (t r : Bool) (m : Outcome Unsafe Bool)
    → m ≡ ok r
    → (elim t [ true ↦ m | false ↦ ok true ]) ≡ ok (if t then r else true)
go_on true r m e = e
go_on false r m e = refl

found :
    (t : Bool) (m : Outcome Unsafe Bool) (r : Bool)
    → m ≡ ok r
    → (if t then ok true else m) ≡ ok (if t then true else r)
found true m r e = refl
found false m r e = e

take_all : (p : List ℕ) → take (length p) p ≡ p
take_all [] = refl
take_all (x ∷ p) = ap (◌∷◌ x) (take_all p)

test_byte_loop_lem :
    (k i : ℕ) (p1 p2 : List ℕ)
    → length p1 ≡ i
    → k ≤ length p2
    → test_byte_loop k i (p1 ++ p2) ≡ ok (any_set (take k p2))
unfolding test_byte_loop
test_byte_loop_lem zero i p1 p2 e h = refl
test_byte_loop_lem (suc k) i p1 [] e h = absurd (omega arith)
test_byte_loop_lem (suc k) i p1 (x ∷ p2) e h =
    let size : length (p1 ++ x ∷ []) ≡ i + 1 = omega (arith, length-append p1 (x ∷ []), e) in
    let rest = test_byte_loop_lem k (i + 1) (p1 ++ x ∷ []) p2 size (omega arith) in
    >>=-ok _ (load_back (λ x y. x) p1 p2 x i e)
      (go_on (x == 0) (any_set (take k p2)) _ (rw (append_assoc p1 (x ∷ []) p2) at rest))

module _ (w : ℕ) where
  test_word_loop_lem :
      (k i : ℕ) (p1 p2 : List ℕ)
      → length p1 ≡ i * w
      → k * w ≤ length p2
      → test_word_loop w k i (p1 ++ p2) ≡ ok (any_set (take (k * w) p2))
  unfolding test_word_loop
  test_word_loop_lem zero i p1 p2 e h = let none : 0 * w ≡ 0 = omega arith in rw none refl
  test_word_loop_lem (suc k) i p1 p2 e h =
      let more : suc k * w ≡ w + k * w = omega (arith, suc-mul k w) in
      let next : (i + 1) * w ≡ i * w + w = omega (arith, suc-mul i w) in
      let a : List ℕ = take w p2 in
      let p3 : List ℕ = drop w p2 in
      let wa : length a ≡ w = omega (arith, length-take w p2, h, more) in
      let rest =
        test_word_loop_lem k (i + 1) (p1 ++ a) p3 (omega (arith, length-append p1 a, e, wa, next))
          (omega (arith, length-drop w p2, h, more)) in
      let loaded = rw (take-append-drop w p2) at (load_word_lem w i p1 a p3 e wa) in
      let split : any_set (take (suc k * w) p2)
          ≡ (if any_set a then true else any_set (take (k * w) p3)) =
        ap (λ (n : ℕ). any_set (take n p2)) more
        ∙ ap any_set (take-add w (k * w) p2)
        ∙ any_set-append a _ in
      let joined : (p1 ++ a) ++ p3 ≡ p1 ++ p2 =
        append_assoc p1 a p3 ∙ ap (λ l. p1 ++ l) (take-append-drop w p2) in
      >>=-ok _ loaded (
        go_on (word_value a == 0) (any_set (take (k * w) p3)) _ (rw joined at rest)
        ∙ ap (λ (t : Bool). ok t) (ground (arith, split, any_set-word_value a)))

  fast_test_bytes_lem : (p : List ℕ) → fast_test_bytes w p ≡ ok (any_set p)
  unfolding fast_test_bytes
  fast_test_bytes_lem p =
      let n : ℕ = length p in
      let m : ℕ = n / w * w in
      let whole : m + n % w ≡ n = div-add-mod' n w in
      let start : n - n % w ≡ m = omega (arith, whole) in
      let front : length (take m p) ≡ m = omega (arith, length-take m p, whole) in
      let words =
        test_word_loop_lem (n / w) 0 [] p (let none : 0 ≡ 0 * w = omega arith in none)
          (omega (arith, whole)) in
      let bytes =
        test_byte_loop_lem (n % w) m (take m p) (drop m p) front
          (omega (arith, length-drop m p, whole)) in
      let all : any_set p
          ≡ (if any_set (take m p) then true else any_set (take (n % w) (drop m p))) =
        ap any_set (sym (take_all p) ∙ ap (λ (t : ℕ). take t p) (sym whole) ∙ take-add m (n % w) p)
        ∙ any_set-append (take m p) (take (n % w) (drop m p)) in
      >>=-ok _ words (
        found (any_set (take m p)) _ (any_set (take (n % w) (drop m p)))
          (ap (λ (t : ℕ). test_byte_loop (n % w) t p) start ∙ (rw (take-append-drop m p) at bytes))
        ∙ ap (λ (t : Bool). ok t) (sym all))

-- TestBytes returns whether some byte is not 0, for any word size and whether the target reads
-- words or not.
pub test_bytes_lem :
    (supports_unaligned : Bool) (word_size : ℕ) (p : List ℕ)
    → test_bytes supports_unaligned word_size p ≡ ok (any_set p)
unfolding test_bytes safe_test_bytes
test_bytes_lem true word_size p = fast_test_bytes_lem word_size p
test_bytes_lem false word_size p =
    test_byte_loop_lem (length p) 0 [] p refl (omega arith)
    ∙ ap (λ (l : List ℕ). ok (any_set l)) (take_all p)
