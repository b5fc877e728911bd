-- ===== src/Rlp/Stream/Decode/Steps.antt =====
-- One step of the decoders at a time, and the lengths of encodings.
use native.Mathlib.Decide.{dec_lt}
use go_fiscobcos.Base.{
  ℕ, suc, ◌≤◌, ◌<◌, ◌≡◌, inl, inr, refl, List, [], ◌∷◌, ◌++◌, length, arith, IsU64, length-append,
  lt→ltb, le→ltb,
}
use go_fiscobcos.Rlp.Types.{list, eol}
use go_fiscobcos.Rlp.Head.{put_head}
use go_fiscobcos.Rlp.Head.Size.{length-put_head}
use go_fiscobcos.Rlp.Item.{Item, Items, item_encoding, items_encoding}
use go_fiscobcos.Rlp.Writer.Encoding.{string_encoding}
use go_fiscobcos.Rlp.Stream.{ListPos, Stream, ok, err, M, kind, enter_list, list_end}
use go_fiscobcos.Rlp.Stream.Position.{Edge}
use go_fiscobcos.Rlp.Stream.Values.{Text}
use go_fiscobcos.Rlp.Stream.Decode.{elems, list_slice, decode_interface}

pub decode-Text :
    {edge : Edge} (fuel : ℕ) (s : Stream) (c rest : List ℕ) (st : List ListPos)
    (t : Text edge s c rest st)
    → decode_interface (suc fuel) s ≡ ok (Item.str c) t.end
unfolding decode_interface
decode-Text fuel s c rest st t = elim t.is_text [
  | inl e ↦ ground (arith, t.found, e, t.read)
  | inr e ↦ ground (arith, t.found, e, t.read)
]

pub decode-list :
    (fuel n : ℕ) (s s' : Stream)
    → kind s ≡ ok (list, n) s'
    → decode_interface (suc fuel) s ≡ list_slice fuel (decode_interface fuel) s'
unfolding decode_interface
decode-list fuel n s s' e = ground (arith, e)

pub decode-eol :
    (fuel : ℕ) (s s' : Stream) → kind s ≡ err eol s' → decode_interface (suc fuel) s ≡ err eol s'
unfolding decode_interface
decode-eol fuel s s' e = ground (arith, e)

pub list_slice-empty :
    (fuel : ℕ) (elem : M Item) (s s' s'' : Stream)
    → enter_list s ≡ ok 0 s'
    → list_end s' ≡ ok tt s''
    → list_slice fuel elem s ≡ ok (Item.seq Items.nil) s''
unfolding list_slice
list_slice-empty fuel elem s s' s'' enter leave = rw (enter, leave) refl

pub list_slice-full :
    (fuel n : ℕ) (elem : M Item) (is : Items) (s s' s'' t : Stream)
    → 0 < n
    → enter_list s ≡ ok n s'
    → elems fuel elem s' ≡ ok is s''
    → list_end s'' ≡ ok tt t
    → list_slice fuel elem s ≡ ok (Item.seq is) t
unfolding list_slice
list_slice-full fuel n elem is s s' s'' t above enter inside leave =
    ground (arith, enter, inside, leave)

pub elems-step :
    (fuel : ℕ) (elem : M Item) (i : Item) (is : Items) (s s' t : Stream)
    → elem s ≡ ok i s'
    → elems fuel elem s' ≡ ok is t
    → elems (suc fuel) elem s ≡ ok (Items.cons i is) t
unfolding elems
elems-step fuel elem i is s s' t first more = ground (arith, first, more)

pub elems-end :
    (fuel : ℕ) (elem : M Item) (s t : Stream)
    → elem s ≡ err eol t
    → elems (suc fuel) elem s ≡ ok Items.nil t
unfolding elems
elems-end fuel elem s t e = ground (arith, e)

headed_pos : (small large n : ℕ) (b : List ℕ) → IsU64 n → 0 < length (put_head small large n ++ b)
headed_pos small large n b u =
    omega (arith, length-append (put_head small large n) b, length-put_head small large n u)

-- Every encoding has a byte.
string_encoding_pos : (c : List ℕ) → IsU64 (length c) → 0 < length (string_encoding c)
string_encoding_pos [] u = omega (arith, length-put_head 0x80 0xB7 0 (omega arith))
string_encoding_pos (x ∷ []) u = elim (dec_lt x 128) [
  | yes low ↦ rw (lt→ltb x 128 low) (omega arith)
  | no h ↦ rw (le→ltb x 128 (omega arith)) (headed_pos 0x80 0xB7 1 (x ∷ []) (omega arith))
]
string_encoding_pos (x ∷ y ∷ c) u = headed_pos 0x80 0xB7 (length (x ∷ y ∷ c)) (x ∷ y ∷ c) u

-- The content is no longer than the encoding.
pub string_encoding_le : (c : List ℕ) → length c ≤ length (string_encoding c)
string_encoding_le [] = omega arith
string_encoding_le (x ∷ []) = elim (dec_lt x 128) [
  | yes low ↦ rw (lt→ltb x 128 low) (omega arith)
  | no h ↦
      rw (le→ltb x 128 (omega arith)) (omega (arith, length-append (put_head 0x80 0xB7 1) (x ∷ [])))
]
string_encoding_le (x ∷ y ∷ c) =
    omega (arith, length-append (put_head 0x80 0xB7 (length (x ∷ y ∷ c))) (x ∷ y ∷ c))

pub item_encoding_pos : (i : Item) → IsU64 (length (item_encoding i)) → 0 < length (item_encoding i)
unfolding item_encoding
item_encoding_pos (Item.str c) u = string_encoding_pos c (omega (arith, string_encoding_le c))
item_encoding_pos (Item.seq is) u =
    let payload : List ℕ = items_encoding is in
    headed_pos 0xC0 0xF7 (length payload) payload
      (omega (arith, length-append (put_head 0xC0 0xF7 (length payload)) payload))
