-- ===== src/Bitutil/Words/Memory.antt =====
-- What the loops of the byte operations write, and words as bytes.
use go_fiscobcos.Base.{
  ℕ, zero, suc, ◌+◌, ◌*◌, ◌/◌, ◌%◌, ◌≤◌, ◌≡◌, ◌∙◌, refl, sym, ap, List, [], ◌∷◌, ◌++◌, length,
  get_elem?, set, take, drop, append_assoc, length-append, get_elem?-back, set-back, take-append,
  drop-append, some, IsBitwise, bitwise_split, bitwise_lt, All, IsByte, min, ok, >>=-ok, load,
  arith,
}
use go_fiscobcos.Bitutil.Words.{Unsafe, word_value, word_bytes, load_word, store_word, byte_loop}

module _ (op : ℕ → ℕ → ℕ) where
  -- `op` on the bytes of two lists.
  abbrev pub combine : List ℕ → List ℕ → List ℕ
  combine [] b = []
  combine (x ∷ a) [] = []
  combine (x ∷ a) (y ∷ b) = op x y ∷ combine a b

  -- The destination, with the first `k` bytes replaced.
  abbrev pub merge : ℕ → List ℕ → List ℕ → List ℕ → List ℕ
  merge zero a b dst = dst
  merge (suc k) (x ∷ a) (y ∷ b) (d ∷ dst) = op x y ∷ merge k a b dst
  merge (suc k) a b dst = dst

  pub length-combine : (a b : List ℕ) → length a ≡ length b → length (combine a b) ≡ length a
  length-combine [] b e = refl
  length-combine (x ∷ a) [] e = absurd (omega (arith, e))
  length-combine (x ∷ a) (y ∷ b) e = ap suc (length-combine a b (omega (arith, e)))

  pub merge_cut :
      (n k : ℕ) (a b d : List ℕ)
      → n ≤ length a
      → n ≤ length b
      → n ≤ length d
      → merge (n + k) a b d
        ≡ combine (take n a) (take n b) ++ merge k (drop n a) (drop n b) (drop n d)
  merge_cut zero k a b d ha hb hd = ap (λ (m : ℕ). merge m a b d) (omega arith)
  merge_cut (suc n) k [] b d ha hb hd = absurd (omega arith)
  merge_cut (suc n) k (x ∷ a) [] d ha hb hd = absurd (omega arith)
  merge_cut (suc n) k (x ∷ a) (y ∷ b) [] ha hb hd = absurd (omega arith)
  merge_cut (suc n) k (x ∷ a) (y ∷ b) (z ∷ d) ha hb hd =
      let at : suc n + k ≡ suc (n + k) = omega arith in
      rw at (ap (◌∷◌ (op x y)) (merge_cut n k a b d (omega arith) (omega arith) (omega arith)))

  pub merge_all :
      (a b d : List ℕ) (n : ℕ)
      → n ≡ min (length a) (length b)
      → n ≤ length d
      → merge n a b d ≡ combine a b ++ drop n d
  merge_all [] b d n e h = let none : n ≡ 0 = omega (arith, e) in rw none refl
  merge_all (x ∷ a) [] d n e h = let none : n ≡ 0 = omega (arith, e) in rw none refl
  merge_all (x ∷ a) (y ∷ b) d zero e h = absurd (omega (arith, e))
  merge_all (x ∷ a) (y ∷ b) [] (suc n) e h = absurd (omega arith)
  merge_all (x ∷ a) (y ∷ b) (z ∷ d) (suc n) e h =
      ap (◌∷◌ (op x y)) (merge_all a b d n (omega (arith, e)) (omega arith))

  pub load_back :
      (a1 a2 : List ℕ) (x : ℕ) (i : ℕ) → length a1 ≡ i → load {E = Unsafe} (a1 ++ x ∷ a2) i ≡ ok x
  load_back a1 a2 x i e =
      let at : i ≡ length a1 + 0 = omega (arith, e) in
      let here : get_elem? (a1 ++ x ∷ a2) i ≡ some x = rw at (get_elem?-back a1 (x ∷ a2) 0) in
      ground (arith, here)

  shift : (a1 a2 : List ℕ) (x : ℕ) → a1 ++ x ∷ a2 ≡ (a1 ++ x ∷ []) ++ a2
  shift a1 a2 x = sym (append_assoc a1 (x ∷ []) a2)

  pub byte_loop_lem :
      (k i : ℕ) (a1 a2 b1 b2 d1 d2 : List ℕ)
      → length a1 ≡ i
      → length b1 ≡ i
      → length d1 ≡ i
      → k ≤ length a2
      → k ≤ length b2
      → k ≤ length d2
      → byte_loop op k i (d1 ++ d2) (a1 ++ a2) (b1 ++ b2) ≡ ok (d1 ++ merge k a2 b2 d2)
  unfolding byte_loop
  byte_loop_lem zero i a1 a2 b1 b2 d1 d2 ea eb ed ka kb kd = refl
  byte_loop_lem (suc k) i a1 [] b1 b2 d1 d2 ea eb ed ka kb kd = absurd (omega arith)
  byte_loop_lem (suc k) i a1 (x ∷ a2) b1 [] d1 d2 ea eb ed ka kb kd = absurd (omega arith)
  byte_loop_lem (suc k) i a1 (x ∷ a2) b1 (y ∷ b2) d1 [] ea eb ed ka kb kd = absurd (omega arith)
  byte_loop_lem (suc k) i a1 (x ∷ a2) b1 (y ∷ b2) d1 (z ∷ d2) ea eb ed ka kb kd =
      let at : i ≡ length d1 + 0 = omega (arith, ed) in
      let written : set (d1 ++ z ∷ d2) i (op x y) ≡ (d1 ++ op x y ∷ []) ++ d2 =
        rw at (set-back d1 (z ∷ d2) 0 (op x y) ∙ shift d1 d2 (op x y)) in
      let longer = λ (l : List ℕ) (t : ℕ) (e : length l ≡ i).
        (let size : length (l ++ t ∷ []) ≡ i + 1 = omega (arith, length-append l (t ∷ []), e) in
          size) in
      >>=-ok _ (load_back a1 a2 x i ea) (
        >>=-ok _ (load_back b1 b2 y i eb) (
          >>=-ok _ (load_back d1 d2 z i ed) (
            rw (written, shift a1 a2 x, shift b1 b2 y)
              (byte_loop_lem k (i + 1) (a1 ++ x ∷ []) a2 (b1 ++ y ∷ []) b2 (d1 ++ op x y ∷ []) d2
                  (longer a1 x ea) (longer b1 y eb) (longer d1 (op x y) ed) (omega arith)
                  (omega arith) (omega arith)
                ∙ ap (λ (l : List ℕ). ok l) (append_assoc d1 (op x y ∷ []) (merge k a2 b2 d2))))))

pub word_bytes-word_value : (c : List ℕ) → All IsByte c → word_bytes (length c) (word_value c) ≡ c
word_bytes-word_value [] h = refl
word_bytes-word_value (b ∷ c) h =
    let v : ℕ = word_value c in
    let low : (b + v * 256) % 256 ≡ b = omega (arith, h.0) in
    let high : (b + v * 256) / 256 ≡ v = omega (arith, h.0) in
    rw (low, high) (ap (◌∷◌ b) (word_bytes-word_value c h.1))

module _ (op : ℕ → ℕ → ℕ) (bitwise : IsBitwise op) where
  pub word_value-combine :
      (a b : List ℕ)
      → length b ≡ length a
      → All IsByte a
      → All IsByte b
      → (op (word_value a) (word_value b) ≡ word_value (combine op a b))
        × All IsByte (combine op a b)
  word_value-combine [] [] e ha hb = (bitwise.zeros, tt)
  word_value-combine [] (y ∷ b) e ha hb = absurd (omega (arith, e))
  word_value-combine (x ∷ a) [] e ha hb = absurd (omega (arith, e))
  word_value-combine (x ∷ a) (y ∷ b) e ha hb =
      let (same, bytes) = word_value-combine a b (omega (arith, e)) ha.1 hb.1 in
      (
        bitwise_split op bitwise 8 x y (word_value a) (word_value b) ha.0 hb.0
            ∙ ap (λ (t : ℕ). op x y + t * 256) same,
        (bitwise_lt op bitwise 8 x y ha.0 hb.0, bytes),
      )

module _ (w i : ℕ) (l1 word l2 : List ℕ) (start : length l1 ≡ i * w) (wide : length word ≡ w) where
  inside : i * w + w ≤ length (l1 ++ (word ++ l2))
  inside = omega (arith, length-append l1 (word ++ l2), length-append word l2, start, wide)

  behind : drop (i * w) (l1 ++ (word ++ l2)) ≡ word ++ l2
  behind = rw (sym start) (drop-append l1 (word ++ l2))

  pub load_word_lem : load_word w (l1 ++ (word ++ l2)) i ≡ ok (word_value word)
  unfolding load_word
  load_word_lem =
      let taken : take w (drop (i * w) (l1 ++ (word ++ l2))) ≡ word =
        ap (take w) behind ∙ ap (λ (n : ℕ). take n (word ++ l2)) (sym wide) ∙ take-append word l2 in
      ground (arith, inside, taken)

  pub store_word_lem :
      (v : ℕ) → store_word w (l1 ++ (word ++ l2)) i v ≡ ok (l1 ++ (word_bytes w v ++ l2))
  unfolding store_word
  store_word_lem v =
      let front : take (i * w) (l1 ++ (word ++ l2)) ≡ l1 =
        rw (sym start) (take-append l1 (word ++ l2)) in
      let both : length (l1 ++ word) ≡ i * w + w =
        omega (arith, length-append l1 word, start, wide) in
      let back : drop (i * w + w) (l1 ++ (word ++ l2)) ≡ l2 =
        ap (drop (i * w + w)) (sym (append_assoc l1 word l2))
        ∙ ap (λ (n : ℕ). drop n ((l1 ++ word) ++ l2)) (sym both)
        ∙ drop-append (l1 ++ word) l2 in
      ground (arith, inside, front, back)
