-- ===== src/Rlp/Buffer/Output.antt =====
-- toBytes writes what the buffer stands for, and its output buffer has exactly that size.
use go_fiscobcos.Base.{
  ℕ, zero, suc, ◌+◌, ◌-◌, ◌≤◌, ◌≡◌, ◌∙◌, refl, sym, ap, List, [], ◌∷◌, ◌++◌, length, take, drop,
  replicate, arith, length-append, length-take, length-drop, length-replicate, append_assoc,
  append-nil, take-append, drop-append_long, ok, slice_from, ltb, le→ltb, false, Outcome,
}
use go_fiscobcos.Rlp.Types.{Error}
use go_fiscobcos.Rlp.Buffer.{
  ListHead, EncBuf, encode_head, copied, copy_at, slice, to_bytes_loop, to_bytes, size,
}
use go_fiscobcos.Rlp.Buffer.Render.{render, IsWithin, heads_size, length-render}

drop-replicate : (n r : ℕ) → drop {A = ℕ} n (replicate r 0) ≡ replicate (r - n) 0
drop-replicate zero r = ap (λ (k : ℕ). replicate k 0) (omega arith)
drop-replicate (suc n) zero = let e : zero - suc n ≡ zero = omega arith in rw e
drop-replicate (suc n) (suc r) = drop-replicate n r ∙ ap (λ (k : ℕ). replicate k 0) (omega arith)

take_all : (xs : List ℕ) → take (length xs) xs ≡ xs
take_all [] = refl
take_all (x ∷ xs) = ap (◌∷◌ x) (take_all xs)

-- A copy that fits, to the place behind what is done.
module _ (done src : List ℕ) (r : ℕ) (fits : length src ≤ r) where
  copied-done : copied (done ++ replicate r 0) (length done) src ≡ length src
  unfolding copied
  copied-done = omega (arith, length-append done (replicate r 0), length-replicate {A = ℕ} r 0)

  copy_at-done :
      copy_at (done ++ replicate r 0) (length done) src
      ≡ (done ++ src) ++ replicate (r - length src) 0
  unfolding copy_at
  copy_at-done =
      let z : List ℕ = replicate r 0 in
      let n : length done + length src - length done ≡ length src = omega arith in
      rw
        (
          copied-done,
          take-append done z,
          take_all,
          drop-append_long done z (length done + length src) (omega arith),
          n,
          drop-replicate,
        )
        (sym (append_assoc done src (replicate (r - length src) 0)))

slice_from-ok : (a : List ℕ) (i : ℕ) → i ≤ length a → slice_from {E = Error} a i ≡ ok (drop i a)
slice_from-ok a i h = ground arith

drop-take : (i j : ℕ) (a : List ℕ) → i ≤ j → drop i (take j a) ≡ take (j - i) (drop i a)
drop-take zero j a h = ap (λ (k : ℕ). take k a) (omega arith)
drop-take (suc i) zero a h = absurd (omega arith)
drop-take (suc i) (suc j) [] h = sym (take-nil (suc j - suc i))
  where
    take-nil : (n : ℕ) → take {A = ℕ} n [] ≡ []
    take-nil zero = refl
    take-nil (suc n) = refl
drop-take (suc i) (suc j) (x ∷ a) h =
    drop-take i j a (omega arith) ∙ ap (λ (k : ℕ). take k (drop i a)) (omega arith)

drop-nil : (n : ℕ) → [] ≡ drop {A = ℕ} n []
drop-nil zero = refl
drop-nil (suc n) = refl

drop-drop : (i j : ℕ) (a : List ℕ) → drop i (drop j a) ≡ drop (j + i) a
drop-drop i zero a = ap (λ (k : ℕ). drop k a) (omega arith)
drop-drop zero (suc j) [] = drop-nil (suc j + zero)
drop-drop (suc i) (suc j) [] = drop-nil (suc j + suc i)
drop-drop i (suc j) (x ∷ a) = drop-drop i j a ∙ ap (λ (k : ℕ). drop k (x ∷ a)) suc_first
  where
    suc_first : suc (j + i) ≡ suc j + i
    suc_first = omega arith

slice-ok :
    (a : List ℕ) (i j : ℕ) → i ≤ j → j ≤ length a → slice a i j ≡ ok (take (j - i) (drop i a))
unfolding slice
slice-ok a i j h m = ground (arith, drop-take i j a)

-- A round of the loop: the string data before a header, and the header.
output_step :
    (str : List ℕ) (h : ListHead) (hs : List ListHead) (done before : List ℕ) (strpos r : ℕ)
    → slice str strpos h.offset ≡ ok before
    → length before + length (encode_head h) ≤ r
    → to_bytes_loop str (h ∷ hs) (done ++ replicate r 0) strpos (length done)
      ≡ to_bytes_loop str hs
          (((done ++ before) ++ encode_head h)
            ++ replicate (r - length before - length (encode_head h)) 0)
          (strpos + length before)
          (length ((done ++ before) ++ encode_head h))
unfolding to_bytes_loop
output_step str h hs done before strpos r cut fits =
    let enc : List ℕ = encode_head h in
    let ready : List ℕ = done ++ before in
    let left : ℕ = r - length before in
    let here : length ready ≡ length done + length before = length-append done before in
    let there : length (ready ++ enc) ≡ length done + length before + length enc =
      omega (arith, here, length-append ready enc) in
    let room : length (ready ++ replicate left 0) ≡ length ready + left =
      omega (arith, length-append ready (replicate left 0), length-replicate {A = ℕ} left 0) in
    let start : slice_from {E = Error} (done ++ replicate r 0) (length done)
        ≡ ok (drop (length done) (done ++ replicate r 0)) =
      slice_from-ok (done ++ replicate r 0) (length done)
        (omega (arith, length-append done (replicate r 0))) in
    let enough : ltb (length (ready ++ replicate left 0) - length ready) (length enc) ≡ false =
      le→ltb _ _ (omega arith) in
    rw (
      cut,
      start,
      copied-done done before r (omega arith),
      copy_at-done done before r (omega arith),
      there,
      ← here,
      enough,
      copy_at-done ready enc left (omega arith),
    )

output_loop :
    (str : List ℕ) (hs : List ListHead) (done : List ℕ) (strpos r : ℕ)
    → strpos ≤ length str
    → IsWithin strpos (drop strpos str) hs
    → r ≡ length (render strpos (drop strpos str) hs)
    → to_bytes_loop str hs (done ++ replicate r 0) strpos (length done)
      ≡ ok (done ++ render strpos (drop strpos str) hs)
unfolding to_bytes_loop
output_loop str [] done strpos r inside w e =
    let fits : length (drop strpos str) ≤ r = omega arith in
    let none_left : r - length (drop strpos str) ≡ 0 = omega arith in
    rw (
      slice_from-ok str strpos inside,
      slice_from-ok (done ++ replicate r 0) (length done)
          (omega (arith, length-append done (replicate r 0))),
      copy_at-done done (drop strpos str) r fits,
      none_left,
      append-nil,
    )
output_loop str (h ∷ hs) done strpos r inside (lo, hi, u, w) e =
    let before : List ℕ = take (h.offset - strpos) (drop strpos str) in
    let enc : List ℕ = encode_head h in
    let cut = slice-ok str strpos h.offset lo (omega (arith, length-drop strpos str)) in
    let count : length before ≡ h.offset - strpos =
      omega (arith, length-take (h.offset - strpos) (drop strpos str)) in
    let there : strpos + length before ≡ h.offset = omega arith in
    let after : drop (h.offset - strpos) (drop strpos str) ≡ drop h.offset str =
      drop-drop (h.offset - strpos) strpos str ∙ ap (λ (k : ℕ). drop k str) (omega arith) in
    let rest : List ℕ = render h.offset (drop h.offset str) hs in
    let shape : render strpos (drop strpos str) (h ∷ hs) ≡ before ++ (enc ++ rest) =
      ap (λ (t : List ℕ). before ++ (enc ++ render h.offset t hs)) after in
    let total : r ≡ length before + length enc + length rest =
      omega (arith, ap length shape, length-append before (enc ++ rest), length-append enc rest) in
    output_step str h hs done before strpos r cut (omega arith)
    ∙ rw there (
        output_loop str hs ((done ++ before) ++ enc) h.offset (r - length before - length enc)
          (omega (arith, length-drop strpos str)) (rw after at w) (omega arith))
    ∙ ap {B = Outcome Error (List ℕ)} ok (
        append_assoc (done ++ before) enc rest
        ∙ append_assoc done before (enc ++ rest)
        ∙ ap (λ (l : List ℕ). done ++ l) (sym shape))

-- A buffer whose headers lie in order and whose header size is their sum: toBytes fills its output
-- exactly with the string data and the headers at their places, and does not panic.
pub to_bytes-render :
    (w : EncBuf)
    → IsWithin 0 w.str w.lheads
    → w.lhsize ≡ heads_size w.lheads
    → to_bytes w ≡ ok (render 0 w.str w.lheads)
unfolding to_bytes
to_bytes-render w within sizes =
    output_loop w.str w.lheads [] 0 (size w) (omega arith) within
      (omega (arith, length-render 0 w.str w.lheads within))
