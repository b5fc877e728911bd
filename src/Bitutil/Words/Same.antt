-- ===== src/Bitutil/Words/Same.antt =====
-- The word operations do what the byte operations do.
use native.Mathlib.Nat.{suc-mul, div-add-mod'}
use go_fiscobcos.Base.{
  ℕ, zero, suc, ◌+◌, ◌-◌, ◌*◌, ◌/◌, ◌%◌, ◌≤◌, ◌≡◌, ◌∙◌, refl, sym, ap, min, bit_and, bit_or,
  bit_xor, Bool, true, false, List, [], ◌++◌, length, take, drop, ltb, append_assoc, length-append,
  length-take, length-drop, take-append-drop, if◌then◌else◌, All, All-take, All-drop, IsByte,
  Outcome, ok, >>=-ok, IsBitwise, bit_and-IsBitwise, bit_or-IsBitwise, bit_xor-IsBitwise, arith,
}
use go_fiscobcos.Bitutil.Words.{
  Unsafe, word_value, word_bytes, byte_loop, word_loop, safe_bytes, fast_bytes, xor_bytes,
  and_bytes, or_bytes,
}
use go_fiscobcos.Bitutil.Words.Memory.{
  combine, merge, length-combine, merge_cut, merge_all, byte_loop_lem, load_word_lem,
  store_word_lem, word_value-combine, word_bytes-word_value,
}

abbrev shorter : List ℕ → List ℕ → ℕ
shorter a b = if ltb (length b) (length a) then length b else length a

-- What an operation on bytes ends with: the destination, of which the first bytes are the combined
-- ones, and their number.
abbrev pub combined : (ℕ → ℕ → ℕ) → List ℕ → List ℕ → List ℕ → Outcome Unsafe (List ℕ × ℕ)
combined op dst a b = let n = min (length a) (length b) in ok (combine op a b ++ drop n dst, n)

module _ (op : ℕ → ℕ → ℕ) (bitwise : IsBitwise op) (w : ℕ) where
  -- One round: the word in front is combined.
  word_loop_step :
      (k i : ℕ) (a1 a a2 b1 b b2 d1 d d2 : List ℕ)
      → length a1 ≡ i * w
      → length b1 ≡ i * w
      → length d1 ≡ i * w
      → length a ≡ w
      → length b ≡ w
      → length d ≡ w
      → All IsByte a
      → All IsByte b
      → word_loop op w (suc k) i (d1 ++ (d ++ d2)) (a1 ++ (a ++ a2)) (b1 ++ (b ++ b2))
        ≡ word_loop op w k
            (i + 1)
            ((d1 ++ combine op a b) ++ d2)
            ((a1 ++ a) ++ a2)
            ((b1 ++ b) ++ b2)
  unfolding word_loop
  word_loop_step k i a1 a a2 b1 b b2 d1 d d2 ea eb ed wa wb wd ha hb =
      let (same, bytes) = word_value-combine op bitwise a b (wb ∙ sym wa) ha hb in
      let size : length (combine op a b) ≡ w = length-combine op a b (wa ∙ sym wb) ∙ wa in
      let written : word_bytes w (op (word_value a) (word_value b)) ≡ combine op a b =
        ap (word_bytes w) same
        ∙ ap (λ (n : ℕ). word_bytes n (word_value (combine op a b))) (sym size)
        ∙ word_bytes-word_value (combine op a b) bytes in
      >>=-ok _ (load_word_lem w i a1 a a2 ea wa) (
        >>=-ok _ (load_word_lem w i b1 b b2 eb wb) (
          >>=-ok _ (store_word_lem w i d1 d d2 ed wd (op (word_value a) (word_value b)))
            (rw (written, append_assoc, append_assoc, append_assoc) refl)))

  word_loop_lem :
      (k i : ℕ) (a1 a2 b1 b2 d1 d2 : List ℕ)
      → length a1 ≡ i * w
      → length b1 ≡ i * w
      → length d1 ≡ i * w
      → k * w ≤ length a2
      → k * w ≤ length b2
      → k * w ≤ length d2
      → All IsByte a2
      → All IsByte b2
      → word_loop op w k i (d1 ++ d2) (a1 ++ a2) (b1 ++ b2) ≡ ok (d1 ++ merge op (k * w) a2 b2 d2)
  unfolding word_loop
  word_loop_lem zero i a1 a2 b1 b2 d1 d2 ea eb ed ka kb kd ha hb =
      let none : 0 * w ≡ 0 = omega arith in rw none refl
  word_loop_lem (suc k) i a1 a2 b1 b2 d1 d2 ea eb ed ka kb kd ha hb =
      let more : suc k * w ≡ w + k * w = omega (arith, suc-mul k w) in
      let next : (i + 1) * w ≡ i * w + w = omega (arith, suc-mul i w) in
      let a : List ℕ = take w a2 in
      let b : List ℕ = take w b2 in
      let d : List ℕ = take w d2 in
      let a3 : List ℕ = drop w a2 in
      let b3 : List ℕ = drop w b2 in
      let d3 : List ℕ = drop w d2 in
      let wa : length a ≡ w = omega (arith, length-take w a2, ka, more) in
      let wb : length b ≡ w = omega (arith, length-take w b2, kb, more) in
      let wd : length d ≡ w = omega (arith, length-take w d2, kd, more) in
      let wc : length (combine op a b) ≡ w = length-combine op a b (wa ∙ sym wb) ∙ wa in
      let rest =
        word_loop_lem k (i + 1) (a1 ++ a) a3 (b1 ++ b) b3 (d1 ++ combine op a b) d3
          (omega (arith, length-append a1 a, ea, wa, next))
          (omega (arith, length-append b1 b, eb, wb, next))
          (omega (arith, length-append d1 (combine op a b), ed, wc, next))
          (omega (arith, length-drop w a2, ka, more)) (omega (arith, length-drop w b2, kb, more))
          (omega (arith, length-drop w d2, kd, more)) (All-drop IsByte w a2 ha)
          (All-drop IsByte w b2 hb) in
      let merged : merge op (suc k * w) a2 b2 d2 ≡ combine op a b ++ merge op (k * w) a3 b3 d3 =
        ap (λ (n : ℕ). merge op n a2 b2 d2) more
        ∙ merge_cut op w (k * w) a2 b2 d2 (omega (arith, ka, more)) (omega (arith, kb, more))
            (omega (arith, kd, more)) in
      let round =
        word_loop_step k i a1 a a3 b1 b b3 d1 d d3 ea eb ed wa wb wd (All-take IsByte w a2 ha)
          (All-take IsByte w b2 hb) in
      (rw (take-append-drop w a2, take-append-drop w b2, take-append-drop w d2) at round)
      ∙ rest
      ∙ ap (λ (l : List ℕ). ok l)
          (append_assoc d1 (combine op a b) (merge op (k * w) a3 b3 d3)
            ∙ ap (λ (l : List ℕ). d1 ++ l) (sym merged))

  -- Both run through: the first bytes of the destination are the combined ones.
  fast_lem :
      (n : ℕ) (dst a b : List ℕ)
      → n ≤ length a
      → n ≤ length b
      → n ≤ length dst
      → All IsByte a
      → All IsByte b
      → (dst' : List ℕ) × (word_loop op w (n / w) 0 dst a b ≡ ok dst')
        × (byte_loop op (n % w) (n - n % w) dst' a b ≡ ok (merge op n a b dst))
  fast_lem n dst a b ka kb kd ha hb =
      let m : ℕ = n / w * w in
      let whole : m + n % w ≡ n = div-add-mod' n w in
      let start : n - n % w ≡ m = omega (arith, whole) in
      let none : 0 ≡ 0 * w = omega arith in
      let cut =
        merge_cut op m 0 a b dst (omega (arith, whole)) (omega (arith, whole))
          (omega (arith, whole)) in
      let words : word_loop op w (n / w) 0 dst a b
          ≡ ok (combine op (take m a) (take m b) ++ drop m dst) =
        word_loop_lem (n / w) 0 [] a [] b [] dst none none none (omega (arith, whole))
          (omega (arith, whole)) (omega (arith, whole)) ha hb
        ∙ ap (λ (l : List ℕ). ok l) (ap (λ (t : ℕ). merge op t a b dst) (omega arith) ∙ cut) in
      let cut' =
        merge_cut op m (n % w) a b dst (omega (arith, whole)) (omega (arith, whole))
          (omega (arith, whole)) in
      let all : merge op n a b dst
          ≡ combine op (take m a) (take m b)
            ++ merge op (n % w) (drop m a) (drop m b) (drop m dst) =
        ap (λ (t : ℕ). merge op t a b dst) (sym whole) ∙ cut' in
      let wa : length (take m a) ≡ m = omega (arith, length-take m a, ka, whole) in
      let wb : length (take m b) ≡ m = omega (arith, length-take m b, kb, whole) in
      let wc : length (combine op (take m a) (take m b)) ≡ m =
        length-combine op (take m a) (take m b) (wa ∙ sym wb) ∙ wa in
      let bytes =
        byte_loop_lem op (n % w) m (take m a) (drop m a) (take m b) (drop m b)
          (combine op (take m a) (take m b)) (drop m dst) wa wb wc
          (omega (arith, length-drop m a, ka, whole)) (omega (arith, length-drop m b, kb, whole))
          (omega (arith, length-drop m dst, kd, whole)) in
      (
        combine op (take m a) (take m b) ++ drop m dst,
        words,
        ap (λ (t : ℕ). byte_loop op (n % w) t (combine op (take m a) (take m b) ++ drop m dst) a b)
              start
            ∙ (rw (take-append-drop m a, take-append-drop m b) at bytes)
            ∙ ap (λ (l : List ℕ). ok l) (sym all),
      )

  module _ (dst a b : List ℕ) (room : min (length a) (length b) ≤ length dst) where
    shorter-min : shorter a b ≡ min (length a) (length b)
    shorter-min = ground arith

    safe_bytes_lem : safe_bytes op dst a b ≡ ok (merge op (shorter a b) a b dst, shorter a b)
    unfolding safe_bytes
    safe_bytes_lem =
        >>=-ok _
          (byte_loop_lem op (shorter a b) 0 [] a [] b [] dst refl refl refl
            (omega (arith, shorter-min)) (omega (arith, shorter-min)) (omega (arith, shorter-min)))
          refl

    fast_bytes_lem :
        All IsByte a
        → All IsByte b
        → fast_bytes op w dst a b ≡ ok (merge op (shorter a b) a b dst, shorter a b)
    unfolding fast_bytes
    fast_bytes_lem ha hb =
        let (d, first, second) =
          fast_lem (shorter a b) dst a b (omega (arith, shorter-min)) (omega (arith, shorter-min))
            (omega (arith, shorter-min)) ha hb in
        >>=-ok _ first (>>=-ok _ second refl)

    whole : merge op (shorter a b) a b dst ≡ combine op a b ++ drop (min (length a) (length b)) dst
    whole = rw shorter-min (merge_all op a b dst (min (length a) (length b)) refl room)

    answer : ok (merge op (shorter a b) a b dst, shorter a b) ≡ combined op dst a b
    answer =
        ap (λ (l : List ℕ). ok (l, shorter a b)) whole
        ∙ ap (λ (n : ℕ). ok (combine op a b ++ drop (min (length a) (length b)) dst, n)) shorter-min

    -- Whether words are used or not.
    either_bytes_lem :
        (words : Bool)
        → All IsByte a
        → All IsByte b
        → (if words then fast_bytes op w dst a b else safe_bytes op dst a b) ≡ combined op dst a b
    either_bytes_lem true ha hb = fast_bytes_lem ha hb ∙ answer
    either_bytes_lem false ha hb = safe_bytes_lem ∙ answer

-- On byte slices, with a destination that is as long as the shorter operand and apart from
-- both, XORBytes, ANDBytes and ORBytes write the exclusive or, and, and or of the operands'
-- bytes in front, leave the rest and return the number of bytes, for any word size and whether
-- the target reads words or not.
pub bytes_lem :
    (supports_unaligned : Bool) (word_size : ℕ) (dst a b : List ℕ)
    → min (length a) (length b) ≤ length dst
    → All IsByte a
    → All IsByte b
    → (xor_bytes supports_unaligned word_size dst a b ≡ combined bit_xor dst a b)
      × (and_bytes supports_unaligned word_size dst a b ≡ combined bit_and dst a b)
      × (or_bytes supports_unaligned word_size dst a b ≡ combined bit_or dst a b)
unfolding xor_bytes and_bytes or_bytes
bytes_lem supports_unaligned word_size dst a b room ha hb = (
  either_bytes_lem bit_xor bit_xor-IsBitwise word_size dst a b room supports_unaligned ha hb,
  either_bytes_lem bit_and bit_and-IsBitwise word_size dst a b room supports_unaligned ha hb,
  either_bytes_lem bit_or bit_or-IsBitwise word_size dst a b room supports_unaligned ha hb,
)
