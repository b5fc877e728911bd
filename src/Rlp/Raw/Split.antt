-- ===== src/Rlp/Raw/Split.antt =====
-- Split cuts off exactly one canonically encoded value.
use mathlib.Core.Path.{subst}
use native.Mathlib.Decide.{dec_lt}
use go_fiscobcos.Base.{
  >>=_inv, ok-injective, Outcome-cases, ℕ, zero, suc, ◌+◌, ◌-◌, ◌≤◌, ◌<◌, ◌≡◌, ◌≢◌, ◌∙◌, refl, sym,
  ap, List, [], ◌∷◌, ◌++◌, length, take, drop, All, arith, IsByte, IsU64, ok, panic, length-append,
  append_assoc, inl, inr, length-take, take-append-drop, All-take, take-append, drop-append,
  be_value, length-drop, ◌==◌, ◌&&◌, false,
}
use go_fiscobcos.Rlp.Types.{Kind, byte, string, list}
use go_fiscobcos.Rlp.Head.{put_int}
use go_fiscobcos.Rlp.Head.Size.{put_int-be_value, put_head_short, put_head_long, length-put_head}
use go_fiscobcos.Rlp.Raw.{read_kind, read_tag, read_size, starts_low, split}
use go_fiscobcos.Rlp.Raw.Size.{read_size_inv, read_size-ne-panic}
use go_fiscobcos.Rlp.Raw.Frame.{header, frame, IsCanonical, read_kind-frame}

-- `b` is the encoding of a canonical content of kind `k`, and more; its header has `ts` bytes.
pub record IsFramed (b : List ℕ) (k : Kind) (ts cs : ℕ) : Type 0 where
  pub content : List ℕ
  pub rest : List ℕ
  pub whole : b ≡ header k (length content) ++ (content ++ rest)
  pub head_length : length (header k (length content)) ≡ ts
  pub content_length : length content ≡ cs
  pub canonical : IsCanonical k content

-- The first `n` elements and the others, where there are so many.
cut : (n : ℕ) (b : List ℕ) → n ≤ length b → (b ≡ take n b ++ drop n b) × (length (take n b) ≡ n)
cut n b h = (sym (take-append-drop n b), omega (arith, length-take n b))

not_low-IsCanonical :
    (n : ℕ) (t : List ℕ)
    → ((n == 1) && starts_low t) ≡ false
    → n ≤ length t
    → IsCanonical string (take n t)
unfolding starts_low
not_low-IsCanonical zero t h m x e = cc
not_low-IsCanonical (suc zero) [] h m x e = cc
not_low-IsCanonical (suc zero) (y ∷ t) h m x e = ground arith
not_low-IsCanonical (suc (suc n)) [] h m x e = cc
not_low-IsCanonical (suc (suc n)) (y ∷ []) h m x e = absurd (omega arith)
not_low-IsCanonical (suc (suc n)) (y ∷ z ∷ t) h m x e = cc

digits_shortest :
    (n : ℕ) (t : List ℕ) (x : ℕ) (t' : List ℕ)
    → t ≡ x ∷ t'
    → 0 < x
    → 1 ≤ n
    → n ≤ 8
    → All IsByte t
    → put_int (be_value 0 (take n t)) ≡ take n t
digits_shortest zero t x t' e pos lo hi bytes = absurd (omega arith)
digits_shortest (suc n) [] x t' e pos lo hi bytes = cc
digits_shortest (suc n) (y ∷ t) x t' e pos lo hi bytes =
    put_int-be_value y (take n t) bytes.0 (All-take IsByte n t bytes.1) (ground arith)
      (omega (arith, length-take n t))

-- What follows the tag byte of a long value: the length in its shortest form, and the content.
read_size-parts :
    (n cs : ℕ) (t : List ℕ)
    → All IsByte t
    → 1 ≤ n
    → n ≤ 8
    → read_size t n ≡ ok cs
    → n + cs ≤ length t
    → (t ≡ put_int cs ++ (take cs (drop n t) ++ drop cs (drop n t)))
      × (length (put_int cs) ≡ n)
      × (length (take cs (drop n t)) ≡ cs)
      × (56 ≤ cs)
read_size-parts n cs t bytes lo hi e m =
    let (inside, value, big, x, t', start, pos) = read_size_inv t n cs bytes lo hi e in
    let shortest : put_int cs ≡ take n t =
      ap put_int value ∙ digits_shortest n t x t' start pos lo hi bytes in
    let front = cut n t inside in
    let back = cut cs (drop n t) (omega (arith, length-drop n t)) in
    (
      front.0
          ∙ ap (λ (l : List ℕ). l ++ drop n t) (sym shortest)
          ∙ ap (λ (l : List ℕ). put_int cs ++ l) back.0,
      rw shortest front.1,
      back.1,
      big,
    )

abbrev Parts : Type 0
Parts = Kind × ℕ × ℕ

IsFramed-at : (b : List ℕ) (p q : Parts) → p ≡ q → IsFramed b p.0 p.1 p.2 → IsFramed b q.0 q.1 q.2
IsFramed-at b p q e = subst (λ (r : Parts). IsFramed b r.0 r.1 r.2) e

module _ (x : ℕ) (t : List ℕ) (p : Parts) (hx : IsByte x) (ht : All IsByte t)
    (u : IsU64 (length (x ∷ t))) (e : read_kind (x ∷ t) ≡ ok p) where
  IsFramed-byte : x < 0x80 → IsFramed (x ∷ t) p.0 p.1 p.2
  unfolding read_kind read_tag
  IsFramed-byte h =
      let same : ◌≡◌ {A = Parts} (byte, 0, 1) p = ground arith in
      IsFramed-at (x ∷ t) (byte, 0, 1) p same
        (record {
          content = x ∷ [];
          rest = t;
          whole = refl;
          head_length = refl;
          content_length = refl;
          canonical = (x, refl, h);
        })

  IsFramed-short_string : 0x80 ≤ x → x < 0xB8 → IsFramed (x ∷ t) p.0 p.1 p.2
  unfolding read_kind read_tag
  IsFramed-short_string lo hi =
      let n = x - 0x80 in
      let same : ◌≡◌ {A = Parts} (string, 1, n) p = ground arith in
      let fits : n ≤ length t = ground arith in
      let not_low : ((n == 1) && starts_low t) ≡ false = ground arith in
      let (whole, count) = cut n t fits in
      let head = put_head_short 0x80 0xB7 n (omega arith) (omega arith) in
      let tag : 0x80 + n ≡ x = omega arith in
      IsFramed-at (x ∷ t) (string, 1, n) p same
        (record {
          content = take n t;
          rest = drop n t;
          whole = rw (count, head, tag) (ap (◌∷◌ x) whole);
          head_length = rw (count, head) refl;
          content_length = count;
          canonical = not_low-IsCanonical n t not_low fits;
        })

  IsFramed-short_list : 0xC0 ≤ x → x < 0xF8 → IsFramed (x ∷ t) p.0 p.1 p.2
  unfolding read_kind read_tag
  IsFramed-short_list lo hi =
      let n = x - 0xC0 in
      let same : ◌≡◌ {A = Parts} (list, 1, n) p = ground arith in
      let fits : n ≤ length t = ground arith in
      let (whole, count) = cut n t fits in
      let head = put_head_short 0xC0 0xF7 n (omega arith) (omega arith) in
      let tag : 0xC0 + n ≡ x = omega arith in
      IsFramed-at (x ∷ t) (list, 1, n) p same
        (record {
          content = take n t;
          rest = drop n t;
          whole = rw (count, head, tag) (ap (◌∷◌ x) whole);
          head_length = rw (count, head) refl;
          content_length = count;
          canonical = tt;
        })

  IsFramed-long_string : 0xB8 ≤ x → x < 0xC0 → IsFramed (x ∷ t) p.0 p.1 p.2
  unfolding read_kind read_tag
  IsFramed-long_string lo hi =
      let n = x - 0xB7 in
      let size : read_size t n ≡ ok p.2 = ground arith in
      let same : ◌≡◌ {A = Parts} (string, n + 1, p.2) p = ground arith in
      let fits : n + p.2 ≤ length t =
        ground (arith, read_size_inv t n p.2 ht (omega arith) (omega arith)) in
      let (whole, digits, count, big) =
        read_size-parts n p.2 t ht (omega arith) (omega arith) size fits in
      let head = put_head_long 0x80 0xB7 p.2 (omega arith) big (omega arith) in
      let tag : 0xB7 + n ≡ x = omega arith in
      IsFramed-at (x ∷ t) (string, n + 1, p.2) p same
        (record {
          content = take p.2 (drop n t);
          rest = drop p.2 (drop n t);
          whole = rw (count, head, digits, tag) (ap (◌∷◌ x) whole);
          head_length = rw (count, head, digits) (omega (arith, digits));
          content_length = count;
          canonical = λ y one. absurd (omega (arith, ap length one));
        })

  IsFramed-long_list : 0xF8 ≤ x → IsFramed (x ∷ t) p.0 p.1 p.2
  unfolding read_kind read_tag
  IsFramed-long_list lo =
      let n = x - 0xF7 in
      let size : read_size t n ≡ ok p.2 = ground arith in
      let same : ◌≡◌ {A = Parts} (list, n + 1, p.2) p = ground arith in
      let fits : n + p.2 ≤ length t =
        ground (arith, read_size_inv t n p.2 ht (omega arith) (omega arith)) in
      let (whole, digits, count, big) =
        read_size-parts n p.2 t ht (omega arith) (omega arith) size fits in
      let head = put_head_long 0xC0 0xF7 p.2 (omega arith) big (omega arith) in
      let tag : 0xF7 + n ≡ x = omega arith in
      IsFramed-at (x ∷ t) (list, n + 1, p.2) p same
        (record {
          content = take p.2 (drop n t);
          rest = drop p.2 (drop n t);
          whole = rw (count, head, digits, tag) (ap (◌∷◌ x) whole);
          head_length = rw (count, head, digits) (omega (arith, digits));
          content_length = count;
          canonical = tt;
        })

  IsFramed-any : IsFramed (x ∷ t) p.0 p.1 p.2
  IsFramed-any = elim (dec_lt x 0x80) [
    | yes h ↦ IsFramed-byte h
    | no h1 ↦ elim (dec_lt x 0xB8) [
      | yes h ↦ IsFramed-short_string (omega arith) h
      | no h2 ↦ elim (dec_lt x 0xC0) [
        | yes h ↦ IsFramed-long_string (omega arith) h
        | no h3 ↦ elim (dec_lt x 0xF8) [
          | yes h ↦ IsFramed-short_list (omega arith) h
          | no h4 ↦ IsFramed-long_list (omega arith)
        ]
      ]
    ]
  ]

read_kind-nil : (p : Parts) → read_kind [] ≡ ok p → ⊥
unfolding read_kind
read_kind-nil p e = cc

-- What readKind accepts starts with a canonical encoding, of the sizes that it returns.
pub read_kind-IsFramed :
    (b : List ℕ) (k : Kind) (ts cs : ℕ)
    → All IsByte b
    → IsU64 (length b)
    → read_kind b ≡ ok (k, ts, cs)
    → IsFramed b k ts cs
read_kind-IsFramed [] k ts cs h u e = absurd (read_kind-nil (k, ts, cs) e)
read_kind-IsFramed (x ∷ t) k ts cs h u e = IsFramed-any x t (k, ts, cs) h.0 h.1 u e

-- The slicing of Split, where readKind has found the parts.
split_parts :
    (k : Kind) (hd c rest : List ℕ)
    → read_kind (hd ++ (c ++ rest)) ≡ ok (k, length hd, length c)
    → split (hd ++ (c ++ rest)) ≡ ok (k, c, rest)
unfolding split
split_parts k hd c rest e =
    let n : length hd + length c ≡ length (hd ++ c) = sym (length-append hd c) in
    let whole : hd ++ (c ++ rest) ≡ (hd ++ c) ++ rest = sym (append_assoc hd c rest) in
    let upto : take (length hd + length c) (hd ++ (c ++ rest)) ≡ hd ++ c =
      rw (n, whole) (take-append (hd ++ c) rest) in
    let after : drop (length hd + length c) (hd ++ (c ++ rest)) ≡ rest =
      rw (n, whole) (drop-append (hd ++ c) rest) in
    ground (
      arith,
      e,
      upto,
      after,
      drop-append hd c,
      length-append hd (c ++ rest),
      length-append c rest,
      length-append hd c,
    )

-- Split returns the kind, the content and the rest of the encoding of any canonical content
-- with any bytes behind it, if the whole is shorter than 2 ^ 64.
pub split-frame :
    (k : Kind) (c rest : List ℕ)
    → IsCanonical k c
    → All IsByte (c ++ rest)
    → IsU64 (length (frame k c ++ rest))
    → split (frame k c ++ rest) ≡ ok (k, c, rest)
split-frame k c rest h bytes u =
    let regroup = append_assoc (header k (length c)) c rest in
    rw regroup (
      split_parts k (header k (length c)) c rest
        (read_kind-frame k c rest h bytes (rw regroup at u)))

split_found :
    (b : List ℕ) (k : Kind) (ts cs : ℕ)
    → read_kind b ≡ ok (k, ts, cs)
    → (f : IsFramed b k ts cs) → split b ≡ ok (k, f.content, f.rest)
split_found b k ts cs e f =
    let hd = header k (length f.content) in
    let found : read_kind (hd ++ (f.content ++ f.rest)) ≡ ok (k, length hd, length f.content) =
      rw (← f.whole, f.head_length, f.content_length) e in
    rw f.whole (split_parts k hd f.content f.rest found)

-- On bytes, fewer than 2 ^ 64 of them, where Split succeeds its input is the encoding of the
-- returned kind and content followed by the returned rest, and the content is canonical: no
-- other header, longer than needed or with a leading zero byte, is accepted.
pub split_inv :
    (b : List ℕ) (k : Kind) (c rest : List ℕ)
    → All IsByte b
    → IsU64 (length b)
    → split b ≡ ok (k, c, rest)
    → (b ≡ frame k c ++ rest) × IsCanonical k c
unfolding split
split_inv b k c rest h u e =
    let ((k', ts, cs), _, found) = >>=_inv (read_kind b) _ e in
    let f = read_kind-IsFramed b k' ts cs h u found in
    let same = ok-injective _ _ (sym (split_found b k' ts cs found f) ∙ e) in
    subst (λ (r : Kind × List ℕ × List ℕ). (b ≡ frame r.0 r.1 ++ r.2) × IsCanonical r.0 r.1) same
      (f.whole ∙ sym (append_assoc (header k' (length f.content)) f.content f.rest), f.canonical)

pub read_kind-ne-panic : (b : List ℕ) → All IsByte b → read_kind b ≢ panic
unfolding read_kind read_tag
read_kind-ne-panic [] h e = cc
read_kind-ne-panic (x ∷ t) h e =
    ground (arith, read_size-ne-panic t (x - 0xB7) h.1, read_size-ne-panic t (x - 0xF7) h.1)

-- On any bytes, fewer than 2 ^ 64 of them, Split does not panic: its slice bounds and the reads
-- of readSize stay inside the input.
pub split-ne-panic : (b : List ℕ) → All IsByte b → IsU64 (length b) → split b ≢ panic
split-ne-panic b h u e = elim (Outcome-cases (read_kind b)) [
  | inl ((k, ts, cs), found) ↦
      cc (e, split_found b k ts cs found (read_kind-IsFramed b k ts cs h u found))
  | inr (inl (x, failed)) ↦ unfold split in cc (e, failed)
  | inr (inr crashed) ↦ read_kind-ne-panic b h crashed
]

-- No encoding is empty.
pub header_pos :
    (k : Kind) (c : List ℕ)
    → IsCanonical k c
    → IsU64 (length c)
    → 1 ≤ length (header k (length c)) + length c
header_pos byte c (x, e, low) u = omega (arith, ap length e)
header_pos string c h u = omega (arith, length-put_head 0x80 0xB7 (length c) u)
header_pos list c h u = omega (arith, length-put_head 0xC0 0xF7 (length c) u)
