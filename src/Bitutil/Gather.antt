-- ===== src/Bitutil/Gather.antt =====
-- common/bitutil/compress.go: what the loop of bitsetEncodeBytes gathers.
use native.Mathlib.Decide.{ℕ_discrete}
use mathlib.Core.Path.{subst}
use go_fiscobcos.Base.{
  ℕ, ◌+◌, ◌-◌, ◌*◌, ◌/◌, ◌%◌, ◌≤◌, ◌<◌, ◌≡◌, ◌≢◌, ◌∙◌, refl, sym, ap, true, false, List, [], ◌∷◌,
  ◌++◌, length, ◌==◌, if◌then◌else◌, get_elem?, set, none, some, length-set, length-append,
  append_assoc, append-nil, arith,
}
use go_fiscobcos.Bitutil.{test_bit, or_bit, mark, gather}
use go_fiscobcos.Bitutil.Bits.{
  test_bit-or_bit, test_bit-or_bit_other, nonzero_at, nonzero_at-other, nonzero_at-here,
  nonzero_at-past, IsBitset, get_elem?-set, get_elem?-set_other,
}

abbrev pub nonzeros : List ℕ → List ℕ
nonzeros [] = []
nonzeros (b ∷ t) = if b == 0 then nonzeros t else b ∷ nonzeros t

length-mark : (s : List ℕ) (i : ℕ) → length (mark s i) ≡ length s
unfolding mark
length-mark s i =
    elim (get_elem? s (i / 8))
      as (λ o.
        length (elim o [ none ↦ s | some x ↦ set s (i / 8) (or_bit x (7 - i % 8)) ]) ≡ length s) [
          | none ↦ refl
          | some x ↦ length-set s (i / 8) (or_bit x (7 - i % 8))
        ]

mark-some :
    (s : List ℕ) (i x : ℕ)
    → get_elem? s (i / 8) ≡ some x
    → mark s i ≡ set s (i / 8) (or_bit x (7 - i % 8))
unfolding mark
mark-some s i x e = ground (arith, e)

mark-here :
    (s : List ℕ) (i x : ℕ)
    → get_elem? s (i / 8) ≡ some x
    → i < 8 * length s
    → (v : ℕ) × (get_elem? (mark s i) (i / 8) ≡ some v) × (test_bit v (7 - i % 8) ≡ true)
mark-here s i x e room = (
  or_bit x (7 - i % 8),
  rw (mark-some s i x e) (get_elem?-set s (i / 8) (or_bit x (7 - i % 8)) (omega arith)),
  test_bit-or_bit (7 - i % 8) x,
)

mark-elsewhere :
    (s : List ℕ) (i j x y : ℕ)
    → get_elem? s (i / 8) ≡ some x
    → i < 8 * length s
    → j ≢ i
    → get_elem? s (j / 8) ≡ some y
    → (v : ℕ) × (get_elem? (mark s i) (j / 8) ≡ some v)
      × (test_bit v (7 - j % 8) ≡ test_bit y (7 - j % 8))
mark-elsewhere s i j x y e room other there =
    let k : ℕ = 7 - i % 8 in
    elim (ℕ_discrete (j / 8) (i / 8)) [
      | yes same ↦
          let here : get_elem? (set s (i / 8) (or_bit x k)) (j / 8) ≡ some (or_bit x k) =
            rw same (get_elem?-set s (i / 8) (or_bit x k) (omega arith)) in
          let byte : y ≡ x = cc in
          let apart : k ≢ 7 - j % 8 = λ (q : k ≡ 7 - j % 8). other (omega arith) in
          (
            or_bit x k,
            rw (mark-some s i x e) here,
            test_bit-or_bit_other k (7 - j % 8) x apart
                ∙ ap (λ (z : ℕ). test_bit z (7 - j % 8)) (sym byte),
          )
      | no apart ↦ (
        y,
        rw (mark-some s i x e)
            (get_elem?-set_other s (i / 8) (j / 8) (or_bit x k) (λ q. apart (sym q)) ∙ there),
        refl,
      )
    ]

-- The bit of byte `length xs` is set, and the others stay.
IsBitset-mark :
    (s xs : List ℕ) (b : ℕ)
    → IsBitset s xs
    → b ≢ 0
    → length xs < 8 * length s
    → IsBitset (mark s (length xs)) (xs ++ b ∷ [])
IsBitset-mark s xs b bits full room j h =
    let i : ℕ = length xs in
    let (x, e, old) = bits i room in
    elim (ℕ_discrete j i) [
      | yes same ↦
          let (v, there, one) = mark-here s i x e room in
          let is_full : nonzero_at (xs ++ b ∷ []) i ≡ true =
            nonzero_at-here xs [] b ∙ ground (arith, full) in
          rw same (v, there, one ∙ sym is_full)
      | no other ↦
          let (y, there, bit) = bits j (omega (arith, length-mark s i)) in
          let (v, found, kept) = mark-elsewhere s i j x y e room other there in
          (v, found, kept ∙ bit ∙ sym (nonzero_at-other xs b j other))
    ]

-- A byte 0 sets no bit.
IsBitset-skip :
    (s xs : List ℕ) → IsBitset s xs → length xs < 8 * length s → IsBitset s (xs ++ 0 ∷ [])
IsBitset-skip s xs bits room j h =
    let (x, e, bit) = bits j h in
    elim (ℕ_discrete j (length xs)) [
      | yes same ↦ (
        x,
        e,
        bit
            ∙ rw same
                (nonzero_at-past xs (length xs) (omega arith) ∙ sym (nonzero_at-here xs [] 0)),
      )
      | no other ↦ (x, e, bit ∙ sym (nonzero_at-other xs 0 j other))
    ]

pub ==_false : (b : ℕ) → b ≢ 0 → (b == 0) ≡ false
==_false b full = ground (arith, full)

gather-zero :
    (b : ℕ) (t s nz : List ℕ) (i : ℕ) → b ≡ 0 → gather (b ∷ t) i s nz ≡ gather t (i + 1) s nz
unfolding gather
gather-zero b t s nz i e = rw e refl

gather-full :
    (b : ℕ) (t s nz : List ℕ) (i : ℕ)
    → b ≢ 0
    → gather (b ∷ t) i s nz ≡ gather t (i + 1) (mark s i) (nz ++ b ∷ [])
unfolding gather
gather-full b t s nz i full = rw (==_false b full) refl

pub nonzeros-full : (b : ℕ) (t : List ℕ) → b ≢ 0 → nonzeros (b ∷ t) ≡ b ∷ nonzeros t
nonzeros-full b t full = rw (==_false b full) refl

-- The bitset and the bytes that the loop leaves.
abbrev pub Gathered : List ℕ → List ℕ → List ℕ × List ℕ → List ℕ → Type 0
Gathered xs s out nz = (s' : List ℕ) × (out ≡ (s', nz)) × IsBitset s' xs × (length s' ≡ length s)

-- The loop, from the byte behind `xs` on.
pub Gathered-gather :
    (t xs s nz : List ℕ)
    → IsBitset s xs
    → length xs + length t ≤ 8 * length s
    → Gathered (xs ++ t) s (gather t (length xs) s nz) (nz ++ nonzeros t)
unfolding gather
Gathered-gather [] xs s nz bits fits =
    (s, ap (λ (l : List ℕ). (s, l)) (sym (append-nil nz)), rw (append-nil xs) bits, refl)
Gathered-gather (b ∷ t) xs s nz bits fits =
    let xs' : List ℕ = xs ++ b ∷ [] in
    let next : length xs' ≡ length xs + 1 = length-append xs (b ∷ []) in
    let whole : xs' ++ t ≡ xs ++ b ∷ t = append_assoc xs (b ∷ []) t in
    elim (ℕ_discrete b 0) [
      | yes e ↦
          let bits' : IsBitset s xs' =
            subst (λ (v : ℕ). IsBitset s (xs ++ v ∷ [])) (sym e)
              (IsBitset-skip s xs bits (omega arith)) in
          let (s', out, marked, count) = Gathered-gather t xs' s nz bits' (omega (arith, next)) in
          let first : gather (b ∷ t) (length xs) s nz ≡ gather t (length xs') s nz =
            gather-zero b t s nz (length xs) e ∙ ap (λ (i : ℕ). gather t i s nz) (sym next) in
          let kept : nonzeros (b ∷ t) ≡ nonzeros t = rw e refl in
          (s', rw kept (first ∙ out), rw whole at marked, count)
      | no full ↦
          let s1 : List ℕ = mark s (length xs) in
          let bits' = IsBitset-mark s xs b bits full (omega arith) in
          let (s', out, marked, count) =
            Gathered-gather t xs' s1 (nz ++ b ∷ []) bits'
              (omega (arith, next, length-mark s (length xs))) in
          let first : gather (b ∷ t) (length xs) s nz ≡ gather t (length xs') s1 (nz ++ b ∷ []) =
            gather-full b t s nz (length xs) full
            ∙ ap (λ (i : ℕ). gather t i s1 (nz ++ b ∷ [])) (sym next) in
          let kept : (nz ++ b ∷ []) ++ nonzeros t ≡ nz ++ nonzeros (b ∷ t) =
            append_assoc nz (b ∷ []) (nonzeros t)
            ∙ ap (λ (l : List ℕ). nz ++ l) (sym (nonzeros-full b t full)) in
          (
            s',
            first ∙ out ∙ ap (λ (l : List ℕ). (s', l)) kept,
            rw whole at marked,
            count ∙ length-mark s (length xs),
          )
    ]
