-- ===== src/Rlp/Raw/Frame.antt =====
-- The encoding of a kind and a content, and what readKind reads of it.
use native.Mathlib.Decide.{dec_lt}
use go_fiscobcos.Base.{
  ℕ, ◌+◌, ◌≤◌, ◌<◌, ◌≡◌, refl, ap, List, [], ◌∷◌, ◌++◌, length, All, arith, IsByte, IsU64, ok,
  length-append,
}
use go_fiscobcos.Rlp.Types.{Kind, byte, string, list}
use go_fiscobcos.Rlp.Head.{put_int, put_head}
use go_fiscobcos.Rlp.Head.Size.{put_int_lem, put_head_short, put_head_long}
use go_fiscobcos.Rlp.Raw.{read_kind, read_tag}
use go_fiscobcos.Rlp.Raw.Size.{read_size-put_int}

-- The header of a value with `n` bytes of content.
abbrev pub header : Kind → ℕ → List ℕ
header byte n = []
header string n = put_head 0x80 0xB7 n
header list n = put_head 0xC0 0xF7 n

abbrev pub frame : Kind → List ℕ → List ℕ
frame k c = header k (length c) ++ c

-- A byte below 128 is of kind `byte`, and every other content is that of a string or a list.
abbrev pub IsCanonical : Kind → List ℕ → Type 0
IsCanonical byte c = (x : ℕ) × (c ≡ x ∷ []) × (x < 128)
IsCanonical string c = (x : ℕ) → c ≡ x ∷ [] → 128 ≤ x
IsCanonical list c = Unit {0}

read_kind-byte :
    (x : ℕ) (rest : List ℕ)
    → x < 128
    → IsU64 (length (x ∷ rest))
    → read_kind (x ∷ rest) ≡ ok (byte, 0, 1)
unfolding read_kind read_tag
read_kind-byte x rest low u = ground arith

read_kind-short_string :
    (c rest : List ℕ)
    → IsCanonical string c
    → length c < 56
    → IsU64 (length (c ++ rest) + 1)
    → read_kind ((0x80 + length c) ∷ (c ++ rest)) ≡ ok (string, 1, length c)
unfolding read_kind read_tag
read_kind-short_string [] rest h short u = ground arith
read_kind-short_string (x ∷ []) rest h short u = ground (arith, h x refl)
read_kind-short_string (x ∷ y ∷ c) rest h short u = ground (arith, length-append c rest)

read_kind-short_list :
    (c rest : List ℕ)
    → length c < 56
    → IsU64 (length (c ++ rest) + 1)
    → read_kind ((0xC0 + length c) ∷ (c ++ rest)) ≡ ok (list, 1, length c)
unfolding read_kind read_tag
read_kind-short_list c rest short u = ground (arith, length-append c rest)

read_kind-long :
    (c rest : List ℕ)
    → 56 ≤ length c
    → All IsByte (c ++ rest)
    → IsU64 (length (put_int (length c) ++ (c ++ rest)) + 1)
    → (read_kind ((0xB7 + length (put_int (length c))) ∷ (put_int (length c) ++ (c ++ rest)))
        ≡ ok (string, length (put_int (length c)) + 1, length c))
      × (read_kind ((0xF7 + length (put_int (length c))) ∷ (put_int (length c) ++ (c ++ rest)))
          ≡ ok (list, length (put_int (length c)) + 1, length c))
unfolding read_kind read_tag
read_kind-long c rest long bytes u =
    let total = length-append (put_int (length c)) (c ++ rest) in
    let body = length-append c rest in
    let (len, value, some_bytes, few, _) = put_int_lem (length c) (omega (arith, total, body)) in
    let size = read_size-put_int (length c) (c ++ rest) (omega (arith, total, body)) long bytes in
    (
      ground (arith, total, body, len, some_bytes, few, size),
      ground (arith, total, body, len, some_bytes, few, size),
    )

-- readKind on the encoding of a canonical content, whatever follows it.
pub read_kind-frame :
    (k : Kind) (c rest : List ℕ)
    → IsCanonical k c
    → All IsByte (c ++ rest)
    → IsU64 (length (header k (length c) ++ (c ++ rest)))
    → read_kind (header k (length c) ++ (c ++ rest))
      ≡ ok (k, length (header k (length c)), length c)
read_kind-frame byte c rest (x, e, low) bytes u = rw e (read_kind-byte x rest low (rw e at u))
read_kind-frame string c rest h bytes u =
    let total = length-append (header string (length c)) (c ++ rest) in
    let fits : IsU64 (length c) = omega (arith, total, length-append c rest) in
    elim (dec_lt (length c) 56) [
      | yes short ↦
          let e = put_head_short 0x80 0xB7 (length c) (omega arith) short in
          rw e (read_kind-short_string c rest h short (omega (arith, ap length e, total)))
      | no long ↦
          let e = put_head_long 0x80 0xB7 (length c) (omega arith) (omega arith) fits in
          rw e (ground (arith, read_kind-long c rest (omega arith) bytes, total, ap length e))
    ]
read_kind-frame list c rest h bytes u =
    let total = length-append (header list (length c)) (c ++ rest) in
    let fits : IsU64 (length c) = omega (arith, total, length-append c rest) in
    elim (dec_lt (length c) 56) [
      | yes short ↦
          let e = put_head_short 0xC0 0xF7 (length c) (omega arith) short in
          rw e (read_kind-short_list c rest short (omega (arith, ap length e, total)))
      | no long ↦
          let e = put_head_long 0xC0 0xF7 (length c) (omega arith) (omega arith) fits in
          rw e (ground (arith, read_kind-long c rest (omega arith) bytes, total, ap length e))
    ]
