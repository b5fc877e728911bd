-- ===== src/Rlp/Raw/Count.antt =====
-- CountValues counts the values of a concatenation of encodings, and accepts nothing else.
use go_fiscobcos.Base.{
  ℕ, zero, suc, ◌+◌, ◌≤◌, ◌<◌, ◌≡◌, ◌≢◌, ◌∙◌, refl, sym, ap, List, [], ◌∷◌, ◌++◌, length, drop, All,
  arith, IsByte, IsU64, Outcome, ok, err, length-append, append_assoc, All-append, All-drop, Option,
  some, ◌⊎◌, inl, inr, Outcome-cases, drop-append,
}
use go_fiscobcos.Rlp.Types.{Kind, Error}
use go_fiscobcos.Rlp.Raw.{read_kind, count_loop, count_values}
use go_fiscobcos.Rlp.Raw.Frame.{header, frame, IsCanonical, read_kind-frame}
use go_fiscobcos.Rlp.Raw.Split.{IsFramed, read_kind-IsFramed, read_kind-ne-panic, header_pos}

abbrev pub counted : ℕ → Option (Outcome Error ℕ)
counted n = some (ok n)

abbrev pub Value : Type 0
Value = Kind × List ℕ

abbrev pub frames : List Value → List ℕ
frames [] = []
frames ((k, c) ∷ vs) = frame k c ++ frames vs

abbrev pub IsCanonicalValue : Value → Type 0
IsCanonicalValue v = IsCanonical v.0 v.1

abbrev pub IsValue : Value → Type 0
IsValue v = IsCanonical v.0 v.1 × All IsByte (frame v.0 v.1)

frames-IsByte : (vs : List Value) → All IsValue vs → All IsByte (frames vs)
frames-IsByte [] h = tt
frames-IsByte ((k, c) ∷ vs) ((canon, bytes), hs) = All-append IsByte _ _ bytes (frames-IsByte vs hs)

All-append_right : (xs ys : List ℕ) → All IsByte (xs ++ ys) → All IsByte ys
All-append_right [] ys h = h
All-append_right (x ∷ xs) ys h = All-append_right xs ys h.1

content_fits :
    (k : Kind) (c : List ℕ) (vs : List Value)
    → IsU64 (length (frames ((k, c) ∷ vs)))
    → IsU64 (length c)
content_fits k c vs u =
    omega (arith, length-append (frame k c) (frames vs), length-append (header k (length c)) c)

read_kind-frames :
    (k : Kind) (c : List ℕ) (vs : List Value)
    → IsValue (k, c)
    → All IsValue vs
    → IsU64 (length (frames ((k, c) ∷ vs)))
    → read_kind (frame k c ++ frames vs) ≡ ok (k, length (header k (length c)), length c)
read_kind-frames k c vs (canon, bytes) hs u =
    let regroup = append_assoc (header k (length c)) c (frames vs) in
    let content = All-append_right (header k (length c)) c bytes in
    rw regroup (
      read_kind-frame k c (frames vs) canon
        (All-append IsByte c (frames vs) content (frames-IsByte vs hs)) (rw regroup at u))

-- One round of the loop, on input that readKind accepts.
count_loop_step :
    (fuel : ℕ) (b rest : List ℕ) (i : ℕ) (k : Kind) (ts cs : ℕ)
    → read_kind b ≡ ok (k, ts, cs)
    → drop (ts + cs) b ≡ rest
    → ts + cs ≤ length b
    → b ≢ []
    → count_loop (suc fuel) b i ≡ count_loop fuel rest (i + 1)
unfolding count_loop
count_loop_step fuel [] rest i k ts cs e d m ne = absurd (ne refl)
count_loop_step fuel (x ∷ b) rest i k ts cs e d m ne = ground (arith, e, d)

count_loop-nil : (fuel i : ℕ) → count_loop fuel [] i ≡ some (ok i)
unfolding count_loop
count_loop-nil zero i = refl
count_loop-nil (suc fuel) i = refl

frame_pos :
    (k : Kind) (c rest : List ℕ)
    → IsCanonical k c
    → IsU64 (length c)
    → length rest < length (frame k c ++ rest)
frame_pos k c rest h u = omega (
  arith,
  length-append (frame k c) rest,
  length-append (header k (length c)) c,
  header_pos k c h u,
)

frames_loop :
    (vs : List Value) (fuel i : ℕ)
    → All IsValue vs
    → IsU64 (length (frames vs))
    → length (frames vs) ≤ fuel
    → count_loop fuel (frames vs) i ≡ some (ok (length vs + i))
frames_loop [] fuel i h u m = count_loop-nil fuel i ∙ ap counted (omega arith)
frames_loop ((k, c) ∷ vs) zero i ((canon, bytes), hs) u m =
    absurd (omega (arith, frame_pos k c (frames vs) canon (content_fits k c vs u)))
frames_loop ((k, c) ∷ vs) (suc fuel) i ((canon, bytes), hs) u m =
    let fits = content_fits k c vs u in
    let shorter = frame_pos k c (frames vs) canon fits in
    let total = length-append (frame k c) (frames vs) in
    let head = length-append (header k (length c)) c in
    let found = read_kind-frames k c vs (canon, bytes) hs u in
    let after : drop (length (header k (length c)) + length c) (frame k c ++ frames vs)
        ≡ frames vs =
      rw (← head) (drop-append (frame k c) (frames vs)) in
    count_loop_step fuel (frame k c ++ frames vs) (frames vs) i k _ _ found after
      (omega (arith, total, head)) (λ e. absurd (omega (arith, ap length e)))
    ∙ frames_loop vs fuel (i + 1) hs (omega (arith, total)) (omega arith)
    ∙ ap counted (omega arith)

-- CountValues of a concatenation of encodings of canonical contents, all bytes and shorter than
-- 2 ^ 64 in all, is the number of those encodings.
pub count_values-frames :
    (vs : List Value)
    → All IsValue vs
    → IsU64 (length (frames vs))
    → count_values (frames vs) ≡ some (ok (length vs))
unfolding count_values
count_values-frames vs h u =
    frames_loop vs (length (frames vs)) 0 h u (omega arith) ∙ ap counted (omega arith)

-- The rest of a framed value is what readKind's sizes leave of the input, and it is shorter.
framed_rest :
    (b : List ℕ) (k : Kind) (ts cs : ℕ)
    → IsU64 (length b)
    → (f : IsFramed b k ts cs)
    → (drop (ts + cs) b ≡ f.rest) × (ts + cs ≤ length b) × (length f.rest < length b)
framed_rest b k ts cs u f =
    let hd = header k (length f.content) in
    let regroup = f.whole ∙ sym (append_assoc hd f.content f.rest) in
    let total = ap length regroup ∙ length-append (hd ++ f.content) f.rest in
    let head = length-append hd f.content in
    let sizes = f.head_length in
    let amount = f.content_length in
    let sum : ts + cs ≡ length (hd ++ f.content) = omega arith in
    let fits : IsU64 (length f.content) = omega arith in
    (
      rw sum (ap (drop (length (hd ++ f.content))) regroup ∙ drop-append (hd ++ f.content) f.rest),
      omega arith,
      omega (arith, header_pos k f.content f.canonical fits),
    )

framed_more :
    (b : List ℕ) (k : Kind) (ts cs : ℕ)
    → (f : IsFramed b k ts cs) → (vs : List Value) → f.rest ≡ frames vs
    → b ≡ frames ((k, f.content) ∷ vs)
framed_more b k ts cs f vs e =
    f.whole
    ∙ sym (append_assoc (header k (length f.content)) f.content f.rest)
    ∙ ap (λ (l : List ℕ). frame k f.content ++ l) e

-- What the loop has counted when it succeeds from `i` to `n`.
abbrev pub Counted : List ℕ → ℕ → ℕ → Type 0
Counted b i n = (vs : List Value) × (b ≡ frames vs) × All IsCanonicalValue vs × (n ≡ i + length vs)

counted_loop :
    (fuel : ℕ) (b : List ℕ) (i : ℕ)
    → All IsByte b
    → IsU64 (length b)
    → length b ≤ fuel
    → ((n : ℕ) × ((count_loop fuel b i ≡ counted n) × Counted b i n))
      ⊎ ((e : Error) × (count_loop fuel b i ≡ some (err e)))
counted_loop fuel [] i h u m = inl (i, (count_loop-nil fuel i, ([], refl, tt, omega arith)))
counted_loop zero (x ∷ b) i h u m = absurd (omega arith)
counted_loop (suc fuel) (x ∷ b) i h u m = elim (Outcome-cases (read_kind (x ∷ b))) [
  | inl ((k, ts, cs), found) ↦
      let f = read_kind-IsFramed (x ∷ b) k ts cs h u found in
      let (after, inside, shorter) = framed_rest (x ∷ b) k ts cs u f in
      let step =
        count_loop_step fuel (x ∷ b) f.rest i k ts cs found after inside
          (λ e. absurd (omega (arith, ap length e))) in
      elim (counted_loop fuel f.rest (i + 1) (rw (← after) (All-drop IsByte (ts + cs) (x ∷ b) h))
        (omega arith) (omega arith)) [
          | inl (n, (runs, (vs, whole, canon, total))) ↦ inl (
            n,
            (
              step ∙ runs,
              (
                (k, f.content) ∷ vs,
                framed_more (x ∷ b) k ts cs f vs whole,
                (f.canonical, canon),
                omega arith,
              ),
            ),
          )
          | inr (e, runs) ↦ inr (e, step ∙ runs)
        ]
  | inr (inl (e, failed)) ↦ inr (e, unfold count_loop in ground (arith, failed))
  | inr (inr crashed) ↦ absurd (read_kind-ne-panic (x ∷ b) h crashed)
]

-- On any bytes, fewer than 2 ^ 64 of them, CountValues ends without a panic: it returns an
-- error, or a count n such that the input is the concatenation of n canonical encodings.
pub count_values_complete :
    (b : List ℕ)
    → All IsByte b
    → IsU64 (length b)
    → ((n : ℕ) × ((count_values b ≡ some (ok n)) × Counted b 0 n))
      ⊎ ((e : Error) × (count_values b ≡ some (err e)))
unfolding count_values
count_values_complete b h u = counted_loop (length b) b 0 h u (omega arith)
