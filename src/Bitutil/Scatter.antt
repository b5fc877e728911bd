-- ===== src/Bitutil/Scatter.antt =====
-- common/bitutil/compress.go: what the loop of bitsetDecodePartialBytes puts into its output.
use native.Mathlib.Decide.{ℕ_discrete}
use mathlib.Core.Path.{subst}
use go_fiscobcos.Base.{
  ℕ, zero, suc, ◌+◌, ◌-◌, ◌*◌, ◌/◌, ◌%◌, ◌≤◌, ◌<◌, ◌≡◌, ◌≢◌, ◌∙◌, refl, sym, ap, true, false, not,
  List, [], ◌∷◌, ◌++◌, length, get_elem?, set, replicate, some, length-append, append_assoc, ok,
  arith,
}
use go_fiscobcos.Bitutil.{test_bit, place, scatter}
use go_fiscobcos.Bitutil.Bits.{nonzero_at-here, nonzero_at-past, IsBitset}
use go_fiscobcos.Bitutil.Gather.{nonzeros, nonzeros-full, ==_false}

get_elem?-behind : (xs : List ℕ) (b : ℕ) (t : List ℕ) → get_elem? (xs ++ b ∷ t) (length xs) ≡ some b
get_elem?-behind [] b t = refl
get_elem?-behind (x ∷ xs) b t = get_elem?-behind xs b t

set-behind : (xs : List ℕ) (a b : ℕ) (t : List ℕ) → set (xs ++ a ∷ t) (length xs) b ≡ xs ++ b ∷ t
set-behind [] a b t = refl
set-behind (x ∷ xs) a b t = ap (◌∷◌ x) (set-behind xs a b t)

pub place-clear :
    (i : ℕ) (s bytes : List ℕ) (ptr x : ℕ) (out : List ℕ)
    → get_elem? s (i / 8) ≡ some x
    → test_bit x (7 - i % 8) ≡ false
    → place i s bytes ptr out ≡ ok (ptr, out)
unfolding place
place-clear i s bytes ptr x out e bit = rw (e, bit) refl

pub place-full :
    (i : ℕ) (s bytes : List ℕ) (ptr x b : ℕ) (out : List ℕ)
    → get_elem? s (i / 8) ≡ some x
    → test_bit x (7 - i % 8) ≡ true
    → ptr < length bytes
    → i < length out
    → get_elem? bytes ptr ≡ some b
    → b ≢ 0
    → place i s bytes ptr out ≡ ok (ptr + 1, set out i b)
unfolding place
place-full i s bytes ptr x b out e bit room fits found full = ground (arith, e, bit, found, full)

scatter-step :
    (rounds i : ℕ) (s bytes : List ℕ) (ptr ptr' : ℕ) (out out' : List ℕ)
    → place i s bytes ptr out ≡ ok (ptr', out')
    → scatter (suc rounds) i s bytes ptr out ≡ scatter rounds (i + 1) s bytes ptr' out'
unfolding scatter
scatter-step rounds i s bytes ptr ptr' out out' e = rw e refl

-- Nothing more to put.
scatter-past :
    (rounds i : ℕ) (s bytes xs : List ℕ) (ptr : ℕ) (out : List ℕ)
    → IsBitset s xs
    → i + rounds ≡ 8 * length s
    → length xs ≤ i
    → scatter rounds i s bytes ptr out ≡ ok (out, ptr)
unfolding scatter
scatter-past zero i s bytes xs ptr out bits count past = refl
scatter-past (suc rounds) i s bytes xs ptr out bits count past =
    let (x, e, bit) = bits i (omega arith) in
    scatter-step rounds i s bytes ptr ptr out out
      (place-clear i s bytes ptr x out e (bit ∙ nonzero_at-past xs i past))
    ∙ scatter-past rounds (i + 1) s bytes xs ptr out bits (omega arith) (omega arith)

-- The rounds from the byte behind `xs` on give `t`, where the input has the bytes for it behind
-- `pre`.
abbrev pub Puts : List ℕ → List ℕ → List ℕ → List ℕ → List ℕ → ℕ → Type 0
Puts t xs pre rest s rounds =
    scatter rounds (length xs) s (pre ++ nonzeros t ++ rest) (length pre)
      (xs ++ replicate (length t) 0)
    ≡ ok (xs ++ t, length pre + length (nonzeros t))

module _ (t xs pre rest s : List ℕ) (r : ℕ) where
  Puts-zero :
      IsBitset s (xs ++ 0 ∷ t)
      → length xs < 8 * length s
      → Puts t (xs ++ 0 ∷ []) pre rest s r
      → Puts (0 ∷ t) xs pre rest s (suc r)
  Puts-zero bits room more =
      let i : ℕ = length xs in
      let next : length (xs ++ 0 ∷ []) ≡ i + 1 = length-append xs (0 ∷ []) in
      let (x, e, bit) = bits i room in
      let more' =
        rw (next, append_assoc xs (0 ∷ []) (replicate (length t) 0), append_assoc xs (0 ∷ []) t) at
          more in
      let bytes : List ℕ = pre ++ nonzeros t ++ rest in
      let out : List ℕ = xs ++ 0 ∷ replicate (length t) 0 in
      scatter-step r i s bytes (length pre) (length pre) out out
        (place-clear i s bytes (length pre) x out e (bit ∙ nonzero_at-here xs t 0))
      ∙ more'

  Puts-full :
      (b : ℕ)
      → b ≢ 0
      → IsBitset s (xs ++ b ∷ t)
      → length xs < 8 * length s
      → Puts t (xs ++ b ∷ []) (pre ++ b ∷ []) rest s r
      → Puts (b ∷ t) xs pre rest s (suc r)
  Puts-full b full bits room more =
      let i : ℕ = length xs in
      let p : ℕ = length pre in
      let next : length (xs ++ b ∷ []) ≡ i + 1 = length-append xs (b ∷ []) in
      let next_p : length (pre ++ b ∷ []) ≡ p + 1 = length-append pre (b ∷ []) in
      let (x, e, bit) = bits i room in
      let nz : List ℕ = nonzeros t in
      let bytes : List ℕ = (pre ++ (b ∷ nz)) ++ rest in
      let zeros : List ℕ = replicate (length t) 0 in
      let out : List ℕ = xs ++ (0 ∷ zeros) in
      let out' : List ℕ = xs ++ (b ∷ zeros) in
      let there : get_elem? bytes p ≡ some b =
        ap (λ (l : List ℕ). get_elem? l p) (append_assoc pre (b ∷ nz) rest)
        ∙ get_elem?-behind pre b (nz ++ rest) in
      let p_lt : p < length bytes =
        omega (arith, length-append (pre ++ (b ∷ nz)) rest, length-append pre (b ∷ nz)) in
      let i_lt : i < length out = omega (arith, length-append xs (0 ∷ zeros)) in
      let bit' : test_bit x (7 - i % 8) ≡ true =
        bit ∙ nonzero_at-here xs t b ∙ ap not (==_false b full) in
      let placed = place-full i s bytes p x b out e bit' p_lt i_lt there full in
      let placed' : place i s bytes p out ≡ ok (p + 1, out') =
        placed ∙ ap (λ (l : List ℕ). ok (p + 1, l)) (set-behind xs 0 b zeros) in
      let more' =
        rw
          (
            next,
            next_p,
            append_assoc pre (b ∷ []) nz,
            append_assoc xs (b ∷ []) zeros,
            append_assoc xs (b ∷ []) t,
          )
          at more in
      let count : p + 1 + length nz ≡ p + length (b ∷ nz) = omega arith in
      rw (nonzeros-full b t full) (
        scatter-step r i s bytes p (p + 1) out out' placed'
        ∙ more'
        ∙ ap (λ (n : ℕ). ok (xs ++ (b ∷ t), n)) count)

pub Puts-nonzeros :
    (t xs pre rest s : List ℕ) (rounds : ℕ)
    → IsBitset s (xs ++ t)
    → length xs + rounds ≡ 8 * length s
    → length t ≤ rounds
    → Puts t xs pre rest s rounds
Puts-nonzeros [] xs pre rest s rounds bits count fits =
    scatter-past rounds (length xs) s (pre ++ [] ++ rest) (xs ++ []) (length pre) (xs ++ []) bits
      count (omega (arith, length-append xs []))
    ∙ ap (λ (n : ℕ). ok (xs ++ [], n)) (omega arith)
Puts-nonzeros (b ∷ t) xs pre rest s zero bits count fits = absurd (omega arith)
Puts-nonzeros (b ∷ t) xs pre rest s (suc r) bits count fits =
    let whole : (xs ++ b ∷ []) ++ t ≡ xs ++ b ∷ t = append_assoc xs (b ∷ []) t in
    let next = length-append xs (b ∷ []) in
    let more = λ (pre' : List ℕ).
      Puts-nonzeros t (xs ++ b ∷ []) pre' rest s r (rw whole bits) (omega (arith, next))
        (omega arith) in
    elim (ℕ_discrete b 0) [
      | yes e ↦
          subst
            (λ (v : ℕ).
              IsBitset s (xs ++ v ∷ t)
              → Puts t (xs ++ v ∷ []) pre rest s r
              → Puts (v ∷ t) xs pre rest s (suc r))
            (sym e) (λ bits' more'. Puts-zero t xs pre rest s r bits' (omega arith) more') bits
            (more pre)
      | no full ↦ Puts-full t xs pre rest s r b full bits (omega arith) (more (pre ++ b ∷ []))
    ]
