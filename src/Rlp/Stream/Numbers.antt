-- ===== src/Rlp/Stream/Numbers.antt =====
-- Uint reads back an unsigned number.
use mathlib.Core.Path.{subst}
use native.Mathlib.Decide.{dec_lt}
use go_fiscobcos.Base.{
  ℕ, ◌+◌, ◌≤◌, ◌<◌, ◌≡◌, ◌∙◌, refl, sym, ap, List, [], ◌∷◌, ◌++◌, length, arith, IsU64, none,
  length-append, append_assoc, lt→ltb,
}
use go_fiscobcos.Rlp.Types.{byte, string}
use go_fiscobcos.Rlp.Head.{put_head, put_int}
use go_fiscobcos.Rlp.Head.Size.{put_int_lem, put_int-byte, put_head_short}
use go_fiscobcos.Rlp.Writer.{nat_bytes}
use go_fiscobcos.Rlp.Writer.Encoding.{string_encoding}
use go_fiscobcos.Rlp.Writer.Scalars.{nat_bytes-put_int, nat_bytes-nil, number_encoding}
use go_fiscobcos.Rlp.Stream.{ListPos, Stream, ok, kind, tag_int, int_value, read_uint, uint}
use go_fiscobcos.Rlp.Stream.Position.{
  Edge, HasRoom, HasRoom-moved, moved, moved-moved, IsAt-with, IsReady, after, after-IsReady,
}
use go_fiscobcos.Rlp.Stream.Tags.{kind-byte, Tagging-string, read_uint-put_int}
use go_fiscobcos.Rlp.Stream.Headers.{kind-head}
use go_fiscobcos.Rlp.Stream.Values.{IsReady-stack}

uint-byte :
    (s s' : Stream) (x : ℕ)
    → kind s ≡ ok (byte, 0) s'
    → s'.byteval ≡ x
    → 0 < x
    → uint 64 s ≡ ok x (record s' { kind = none })
unfolding uint tag_int
uint-byte s s' x e f above = ground (arith, e, f)

uint-string :
    (s s' t : Stream) (n v : ℕ)
    → kind s ≡ ok (string, n) s'
    → n ≤ 8
    → read_uint n s' ≡ ok v t
    → 128 ≤ v
    → uint 64 s ≡ ok v t
unfolding uint int_value
uint-string s s' t n v e short read large = ground (arith, e, read)

uint-zero :
    (s s' : Stream) → kind s ≡ ok (string, 0) s' → uint 64 s ≡ ok 0 (record s' { kind = none })
unfolding uint int_value read_uint
uint-zero s s' e = ground (arith, e)

-- Uint returns `i` and leaves the stream behind its encoding `e`.
abbrev Reads : Edge → ℕ → Stream → List ℕ → List ℕ → List ListPos → Type 0
Reads edge i s e rest st =
    (s' : Stream) × (uint 64 s ≡ ok i s') × IsReady edge s' rest (moved (length e) st)

module _ (s : Stream) (rest : List ℕ) (st : List ListPos) where
  Reads-zero :
      {edge : Edge}
      → IsReady edge s (string_encoding [] ++ rest) st
      → HasRoom (length (string_encoding [])) st
      → Reads edge 0 s (string_encoding []) rest st
  Reads-zero p room =
      let n : ℕ = length (put_head 0x80 0xB7 0) in
      let none_more : n ≡ n + 0 = omega arith in
      let (s', e, p') =
        kind-head s string 0x80 0xB7 0 rest st Tagging-string (omega arith) (omega arith) p
          (subst (λ (m : ℕ). HasRoom m st) none_more room) in
      (
        record s' { kind = none },
        uint-zero s s' e,
        (IsAt-with s' rest (moved n st) none s'.size s'.byteval s'.kinderr p'.0, refl),
      )

  Reads-byte :
      {edge : Edge} (x : ℕ)
      → 0 < x
      → x < 128
      → IsReady edge s (x ∷ rest) st
      → HasRoom 1 st
      → Reads edge x s (x ∷ []) rest st
  Reads-byte x above low p room =
      let ((s', e, p'), value) = kind-byte s x rest st p room low in
      (
        record s' { kind = none },
        uint-byte s s' x e value above,
        (IsAt-with s' rest (moved 1 st) none s'.size s'.byteval s'.kinderr p'.0, refl),
      )

  Reads-large :
      {edge : Edge} (i : ℕ)
      → IsU64 i
      → 128 ≤ i
      → IsReady edge s (put_head 0x80 0xB7 (length (put_int i)) ++ put_int i ++ rest) st
      → HasRoom (length (put_head 0x80 0xB7 (length (put_int i)) ++ put_int i)) st
      → Reads edge i s (put_head 0x80 0xB7 (length (put_int i)) ++ put_int i) rest st
  Reads-large i u large p room =
      let c : List ℕ = put_int i in
      let n : ℕ = length c in
      let h : List ℕ = put_head 0x80 0xB7 n in
      let st' : List ListPos = moved (length h) st in
      let count : length (h ++ c) ≡ length h + n = length-append h c in
      let room' : HasRoom (length h + n) st = rw count at room in
      let int = put_int_lem i u in
      let (s', e, p') =
        kind-head s string 0x80 0xB7 n (c ++ rest) st Tagging-string
          (omega (arith, length-append c rest)) (omega (arith, int))
          (rw (append_assoc h c rest) at p) room' in
      let inner = HasRoom-moved (length h) n st room' in
      let behind : moved n st' ≡ moved (length (h ++ c)) st =
        moved-moved (length h) n st ∙ ap (λ (m : ℕ). moved m st) (sym count) in
      let read = read_uint-put_int s' i rest st' p'.0 inner u (omega arith) in
      (
        after n st' s',
        uint-string s s' (after n st' s') n i e (omega (arith, int)) read large,
        IsReady-stack (after n st' s') rest behind (after-IsReady n s' c rest st' p'.0 refl),
      )

-- The three forms of the encoding of a number.
number_forms :
    (i : ℕ)
    → IsU64 i
    → (i ≡ 0 → string_encoding (nat_bytes i) ≡ string_encoding [])
      × (0 < i → i < 128 → string_encoding (nat_bytes i) ≡ i ∷ [])
      × (128 ≤ i
          → string_encoding (nat_bytes i) ≡ put_head 0x80 0xB7 (length (put_int i)) ++ put_int i)
number_forms i u = (
  λ e. rw (e, nat_bytes-nil) refl,
  λ above low.
      let digit : nat_bytes i ≡ i ∷ [] =
        nat_bytes-put_int i u above ∙ put_int-byte i (omega arith) in
      rw (digit, lt→ltb i 128 low) refl,
  λ large.
      let short =
        put_head_short 0x80 0xB7 (length (put_int i)) (omega arith)
          (omega (arith, put_int_lem i u)) in
      ap string_encoding (nat_bytes-put_int i u (omega arith))
      ∙ number_encoding i u large
      ∙ ap (λ (h : List ℕ). h ++ put_int i) (sym short),
)

-- In front of the encoding of a number below 2 ^ 64, with no tag read, inside of any lists with
-- room for it and with or without an input limit, which allows the encoding if there is one,
-- Uint returns the number and leaves the stream in front of what follows, with the limit less
-- and the position of the innermost list more by the length of the encoding.
pub uint-nat_bytes :
    {edge : Edge} (i : ℕ) (s : Stream) (rest : List ℕ) (st : List ListPos)
    → IsU64 i
    → IsReady edge s (string_encoding (nat_bytes i) ++ rest) st
    → HasRoom (length (string_encoding (nat_bytes i))) st
    → (s' : Stream) × (uint 64 s ≡ ok i s')
      × IsReady edge s' rest (moved (length (string_encoding (nat_bytes i))) st)
uint-nat_bytes {edge = edge} i s rest st u p room =
    let (zero_form, byte_form, large_form) = number_forms i u in
    elim (dec_lt i 128) [
      | yes low ↦ elim (dec_lt 0 i) [
        | yes above ↦
            let e = byte_form above low in
            rw e (Reads-byte s rest st i above low (rw e at p) (rw e at room))
        | no h ↦
            let at_zero : i ≡ 0 = omega arith in
            let e = zero_form at_zero in
            subst (λ (n : ℕ). Reads edge n s (string_encoding (nat_bytes i)) rest st) (sym at_zero)
              (rw e (Reads-zero s rest st (rw e at p) (rw e at room)))
      ]
      | no h ↦
          let e = large_form (omega arith) in
          rw e (Reads-large s rest st i u (omega arith) (rw e at p) (rw e at room))
    ]
