-- ===== src/Rlp/Buffer/Render.antt =====
-- What a stretch of string data and the headers that belong to it stand for.
use go_fiscobcos.Base.{
  ℕ, ◌+◌, ◌-◌, ◌≤◌, ◌≡◌, ◌∙◌, refl, sym, ap, List, [], ◌∷◌, ◌++◌, length, take, drop, arith, IsU64,
  length-append, length-take, length-drop, append_assoc, take-append_short, drop-append_short,
  take-append_long, drop-append_long,
}
use go_fiscobcos.Rlp.Head.{head_size}
use go_fiscobcos.Rlp.Head.Size.{length-put_head}
use go_fiscobcos.Rlp.Buffer.{ListHead, encode_head}

-- The string data `s` starts at the offset `base`; each header goes in at its own offset.
abbrev pub render : ℕ → List ℕ → List ListHead → List ℕ
render base s [] = s
render base s (h ∷ hs) =
    take (h.offset - base) s ++ (encode_head h ++ render h.offset (drop (h.offset - base) s) hs)

-- The headers come in order, inside of `s`, and their sizes are uint64.
abbrev pub IsWithin : ℕ → List ℕ → List ListHead → Type 0
IsWithin base s [] = Unit {0}
IsWithin base s (h ∷ hs) =
    (base ≤ h.offset)
    × (h.offset ≤ base + length s)
    × IsU64 h.size
    × IsWithin h.offset (drop (h.offset - base) s) hs

abbrev pub heads_size : List ListHead → ℕ
heads_size [] = 0
heads_size (h ∷ hs) = head_size h.size + heads_size hs

pub heads_size-append :
    (xs ys : List ListHead) → heads_size (xs ++ ys) ≡ heads_size xs + heads_size ys
heads_size-append [] ys = omega arith
heads_size-append (h ∷ xs) ys = omega (arith, heads_size-append xs ys)

pub length-render :
    (base : ℕ) (s : List ℕ) (hs : List ListHead)
    → IsWithin base s hs
    → length (render base s hs) ≡ length s + heads_size hs
length-render base s [] w = omega arith
length-render base s (h ∷ hs) (lo, hi, u, w) =
    let n = h.offset - base in
    let rest = render h.offset (drop n s) hs in
    omega (
      arith,
      length-append (take n s) (encode_head h ++ rest),
      length-append (encode_head h) rest,
      length-take n s,
      length-drop n s,
      length-put_head 0xC0 0xF7 h.size u,
      length-render h.offset (drop n s) hs w,
    )

-- String data before the first header is copied as it is.
render-prepend :
    (base : ℕ) (s t : List ℕ) (hs : List ListHead)
    → IsWithin (base + length s) t hs
    → (render base (s ++ t) hs ≡ s ++ render (base + length s) t hs) × IsWithin base (s ++ t) hs
render-prepend base s t [] w = (refl, tt)
render-prepend base s t (h ∷ hs) (lo, hi, u, w) =
    let m = h.offset - base in
    let n = h.offset - (base + length s) in
    let gap : m - length s ≡ n = omega arith in
    let before : take m (s ++ t) ≡ s ++ take n t =
      rw (← gap) (take-append_long s t m (omega arith)) in
    let after : drop m (s ++ t) ≡ drop n t = rw (← gap) (drop-append_long s t m (omega arith)) in
    (
      rw (before, after) (append_assoc s (take n t) _),
      (omega arith, (omega (arith, length-append s t)), u, rw after w),
    )

-- Two stretches, one behind the other.
pub render-append :
    (base : ℕ) (s t : List ℕ) (hs gs : List ListHead)
    → IsWithin base s hs
    → IsWithin (base + length s) t gs
    → (render base (s ++ t) (hs ++ gs) ≡ render base s hs ++ render (base + length s) t gs)
      × IsWithin base (s ++ t) (hs ++ gs)
render-append base s t [] gs w v = render-prepend base s t gs v
render-append base s t (h ∷ hs) gs (lo, hi, u, w) v =
    let n = h.offset - base in
    let before : take n (s ++ t) ≡ take n s = take-append_short n s t (omega arith) in
    let after : drop n (s ++ t) ≡ drop n s ++ t = drop-append_short n s t (omega arith) in
    let end : h.offset + length (drop n s) ≡ base + length s = omega (arith, length-drop n s) in
    let (same, within) = render-append h.offset (drop n s) t hs gs w (rw end v) in
    (
      rw (before, after, same, end)
          (sym (
            append_assoc (take n s) _ _
            ∙ ap (λ (l : List ℕ). take n s ++ l) (append_assoc (encode_head h) _ _))),
      (lo, omega (arith, length-append s t), u, rw after within),
    )
