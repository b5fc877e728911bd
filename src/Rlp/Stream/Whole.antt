-- ===== src/Rlp/Stream/Whole.antt =====
-- Raw returns a value with its header.
use native.Mathlib.Decide.{dec_lt}
use go_fiscobcos.Base.{
  none, ℕ, ◌+◌, ◌≡◌, ◌∙◌, refl, sym, ap, List, [], ◌∷◌, ◌++◌, length, arith, IsU64, length-append,
  append_assoc, append-nil, lt→ltb, le→ltb,
}
use go_fiscobcos.Rlp.Types.{Kind, byte, string, list}
use go_fiscobcos.Rlp.Head.{put_head}
use go_fiscobcos.Rlp.Item.{Item, item_encoding, items_encoding}
use go_fiscobcos.Rlp.Stream.{ListPos, Stream, ok, kind, tag_byte, raw, read_full}
use go_fiscobcos.Rlp.Stream.Position.{
  Edge, HasRoom, HasRoom-moved, moved, moved-moved, IsAt-with, IsReady, after, after-IsReady,
  read_full-ok,
}
use go_fiscobcos.Rlp.Stream.Tags.{kind-byte, Tagging, Tagging-string, Tagging-list}
use go_fiscobcos.Rlp.Stream.Headers.{kind-head}
use go_fiscobcos.Rlp.Stream.Values.{IsReady-stack}

-- Raw returns `e` and leaves the stream behind it.
abbrev IsRaw : Edge → Stream → List ℕ → List ℕ → List ListPos → Type 0
IsRaw edge s e rest st =
    (s' : Stream) × (raw s ≡ ok e s') × IsReady edge s' rest (moved (length e) st)

module _ (k : Kind) (small large : ℕ) (tagging : Tagging k small large)
    (raw-kind : (s s' t : Stream) (n : ℕ) (c : List ℕ)
      → kind s ≡ ok (k, n) s'
      → read_full n s' ≡ ok c t
      → raw s ≡ ok (put_head small large n ++ c) t) where
  IsRaw-head :
      {edge : Edge} (s : Stream) (c rest : List ℕ) (st : List ListPos)
      → IsU64 (length c)
      → IsReady edge s (put_head small large (length c) ++ c ++ rest) st
      → HasRoom (length (put_head small large (length c) ++ c)) st
      → IsRaw edge s (put_head small large (length c) ++ c) rest st
  IsRaw-head s c rest st u p room =
      let n : ℕ = length c in
      let h : List ℕ = put_head small large n in
      let count : length (h ++ c) ≡ length h + n = length-append h c in
      let room' : HasRoom (length h + n) st = rw count at room in
      let (s', e, p') =
        kind-head s k small large n (c ++ rest) st tagging (omega (arith, length-append c rest)) u
          (rw (append_assoc h c rest) at p) room' in
      let inner = HasRoom-moved (length h) n st room' in
      let st' : List ListPos = moved (length h) st in
      let behind : moved n st' ≡ moved (length (h ++ c)) st =
        moved-moved (length h) n st ∙ ap (λ (m : ℕ). moved m st) (sym count) in
      (
        after n st' s',
        raw-kind s s' (after n st' s') n c e (read_full-ok s' c rest st' p'.0 inner),
        IsReady-stack (after n st' s') rest behind (after-IsReady n s' c rest st' p'.0 refl),
      )

raw-string :
    (s s' t : Stream) (n : ℕ) (c : List ℕ)
    → kind s ≡ ok (string, n) s'
    → read_full n s' ≡ ok c t
    → raw s ≡ ok (put_head 0x80 0xB7 n ++ c) t
unfolding raw
raw-string s s' t n c e f = rw (e, f) refl

raw-list :
    (s s' t : Stream) (n : ℕ) (c : List ℕ)
    → kind s ≡ ok (list, n) s'
    → read_full n s' ≡ ok c t
    → raw s ≡ ok (put_head 0xC0 0xF7 n ++ c) t
unfolding raw
raw-list s s' t n c e f = rw (e, f) refl

raw-byte :
    (s s' : Stream) (x : ℕ)
    → kind s ≡ ok (byte, 0) s'
    → s'.byteval ≡ x
    → raw s ≡ ok (x ∷ []) (record s' { kind = none })
unfolding raw tag_byte
raw-byte s s' x e f = rw (e, f) refl

-- In front of the encoding of an item, with no tag read, inside of any lists with room for it
-- and with or without an input limit, which allows the encoding if there is one, Raw returns
-- exactly that encoding and leaves the stream in front of what follows, with the limit less and
-- the position of the innermost list more by its length, which is below 2 ^ 64.
pub raw-item_encoding :
    {edge : Edge} (i : Item) (s : Stream) (rest : List ℕ) (st : List ListPos)
    → IsReady edge s (item_encoding i ++ rest) st
    → HasRoom (length (item_encoding i)) st
    → IsU64 (length (item_encoding i))
    → (s' : Stream) × (raw s ≡ ok (item_encoding i) s')
      × IsReady edge s' rest (moved (length (item_encoding i)) st)
unfolding item_encoding
raw-item_encoding (Item.str []) s rest st p room u =
    let e : put_head 0x80 0xB7 0 ++ [] ≡ put_head 0x80 0xB7 0 = append-nil (put_head 0x80 0xB7 0) in
    rw e at (
      IsRaw-head string 0x80 0xB7 Tagging-string raw-string s [] rest st (omega arith)
        (rw (sym e) at p) (rw (sym e) at room))
raw-item_encoding (Item.str (x ∷ [])) s rest st p room u = elim (dec_lt x 128) [
  | yes low ↦
      let e = lt→ltb x 128 low in
      let ((s', found, p'), value) = kind-byte s x rest st (rw e at p) (rw e at room) low in
      rw e (
        (
          record s' { kind = none },
          raw-byte s s' x found value,
          (IsAt-with s' rest (moved 1 st) none s'.size s'.byteval s'.kinderr p'.0, refl),
        ))
  | no h ↦
      let e = le→ltb x 128 (omega arith) in
      rw e (
        IsRaw-head string 0x80 0xB7 Tagging-string raw-string s (x ∷ []) rest st (omega arith)
          (rw e at p) (rw e at room))
]
raw-item_encoding (Item.str (x ∷ y ∷ c)) s rest st p room u =
    IsRaw-head string 0x80 0xB7 Tagging-string raw-string s (x ∷ y ∷ c) rest st
      (omega (arith, length-append (put_head 0x80 0xB7 (length (x ∷ y ∷ c))) (x ∷ y ∷ c))) p room
raw-item_encoding (Item.seq is) s rest st p room u =
    let payload : List ℕ = items_encoding is in
    IsRaw-head list 0xC0 0xF7 Tagging-list raw-list s payload rest st
      (omega (arith, length-append (put_head 0xC0 0xF7 (length payload)) payload)) p room
