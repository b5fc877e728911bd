-- ===== src/Rlp/Stream/Decode/RoundTrip.antt =====
-- The decoder reads back the encoding of an item.
use go_fiscobcos.Base.{
  ℕ, zero, suc, ◌+◌, ◌<◌, ◌≡◌, ◌∙◌, refl, sym, ap, List, [], ◌∷◌, ◌++◌, length, arith, none, IsU64,
  length-append, append_assoc, append-nil,
}
use go_fiscobcos.Rlp.Types.{more_than_one_value}
use go_fiscobcos.Rlp.Head.{put_head}
use go_fiscobcos.Rlp.Head.Size.{length-put_head}
use go_fiscobcos.Rlp.Item.{Item, Items, item_encoding, items_encoding}
use go_fiscobcos.Rlp.Writer.Encoding.{string_encoding}
use go_fiscobcos.Rlp.Stream.{ListPos, Stream, ok, err, enter_list, list_end, new_stream}
use go_fiscobcos.Rlp.Stream.Position.{
  Edge, HasRoom, HasRoom-moved, moved, moved-moved, IsAt, IsAt-with, IsReady, new_stream-IsReady,
}
use go_fiscobcos.Rlp.Stream.Values.{
  Text-string_encoding, list_found, list_end-ok, kind_at_end, IsReady-stack,
}
use go_fiscobcos.Rlp.Stream.Decode.{elems, list_slice, decode_interface, decode_bytes}
use go_fiscobcos.Rlp.Stream.Decode.Steps.{
  decode-Text, decode-list, decode-eol, list_slice-empty, list_slice-full, elems-step, elems-end,
  string_encoding_le, item_encoding_pos,
}

-- Decoding at `s` gives the item and leaves the stream behind its encoding.
abbrev Decodes : Edge → ℕ → Item → Stream → List ℕ → List ListPos → Type 0
Decodes edge fuel i s rest st =
    (s' : Stream) × (decode_interface fuel s ≡ ok i s')
    × IsReady edge s' rest (moved (length (item_encoding i)) st)

decode_text :
    {edge : Edge} (fuel : ℕ) (c : List ℕ) (s : Stream) (rest : List ℕ) (st : List ListPos)
    → IsReady edge s (string_encoding c ++ rest) st
    → HasRoom (length (string_encoding c)) st
    → IsU64 (length (string_encoding c))
    → Decodes edge (suc fuel) (Item.str c) s rest st
unfolding item_encoding
decode_text fuel c s rest st p room u =
    let t = Text-string_encoding s c rest st (omega (arith, string_encoding_le c)) p room in
    (t.end, decode-Text fuel s c rest (moved (length (string_encoding c)) st) t, t.behind)

-- List, what is inside, and ListEnd.
decode_list :
    {edge : Edge} (fuel : ℕ) (is : Items) (s : Stream) (rest : List ℕ) (st : List ListPos)
    → IsReady edge s (item_encoding (Item.seq is) ++ rest) st
    → HasRoom (length (item_encoding (Item.seq is))) st
    → IsU64 (length (item_encoding (Item.seq is)))
    → ((f : Stream) (st' : List ListPos)
        → IsReady edge f
            (items_encoding is ++ rest)
            (record { pos = 0; size = length (items_encoding is) } ∷ st')
        → (t : Stream) × IsAt edge t rest
            (record { pos = length (items_encoding is); size = length (items_encoding is) } ∷ st')
          × ((s' left : Stream)
              → enter_list s' ≡ ok (length (items_encoding is)) f
              → list_end t ≡ ok tt left
              → list_slice fuel (decode_interface fuel) s' ≡ ok (Item.seq is) left))
    → Decodes edge (suc fuel) (Item.seq is) s rest st
unfolding item_encoding
decode_list fuel is s rest st p room u inside =
    let payload : List ℕ = items_encoding is in
    let n : ℕ = length payload in
    let h : List ℕ = put_head 0xC0 0xF7 n in
    let count : length (h ++ payload) ≡ length h + n = length-append h payload in
    let f = list_found s payload rest st (omega (arith, count)) p room in
    let (t, q, slice) = inside f.inside (moved (length h) st) f.within in
    let (left, ends, behind) =
      list_end-ok t n rest (moved (length h) st) q
        (HasRoom-moved (length h) n st (rw count at room)) in
    let whole : moved n (moved (length h) st) ≡ moved (length (h ++ payload)) st =
      moved-moved (length h) n st ∙ ap (λ (m : ℕ). moved m st) (sym count) in
    (
      left,
      decode-list fuel n s f.tagged f.found ∙ slice f.tagged left f.enter ends,
      IsReady-stack left rest whole behind,
    )

-- The elements of a list, up to its end.
abbrev DecodesAll : Edge → ℕ → ℕ → Items → Stream → List ℕ → ℕ → List ListPos → Type 0
DecodesAll edge rounds fuel is s rest n st =
    (s' : Stream) × (elems rounds (decode_interface fuel) s ≡ ok is s')
    × IsAt edge s' rest (record { pos = n; size = n } ∷ st)

decode_none :
    {edge : Edge} (rounds fuel : ℕ) (s : Stream) (rest : List ℕ) (n : ℕ) (st : List ListPos)
    → IsReady edge s rest (record { pos = n; size = n } ∷ st)
    → DecodesAll edge (suc rounds) (suc fuel) Items.nil s rest n st
decode_none rounds fuel s rest n st p =
    let t : Stream = record s { kinderr = none } in
    let e = decode-eol fuel s t (kind_at_end s n rest st p) in
    (
      t,
      elems-end rounds (decode_interface (suc fuel)) s t e,
      IsAt-with s rest (record { pos = n; size = n } ∷ st) s.kind s.size s.byteval none p.0,
    )

decode_more :
    {edge : Edge} (rounds fuel : ℕ) (i : Item) (is : Items) (s : Stream) (rest rest' : List ℕ)
    (m n : ℕ) (st : List ListPos)
    → (d : Decodes edge fuel i s rest (record { pos = m; size = n } ∷ st))
    → DecodesAll edge rounds fuel is d.0 rest' n st
    → DecodesAll edge (suc rounds) fuel (Items.cons i is) s rest' n st
decode_more rounds fuel i is s rest rest' m n st (t, e, p) (t', more, q) =
    (t', elems-step rounds (decode_interface fuel) i is s t t' e more, q)

items_encoding_pos :
    (i : Item) (is : Items)
    → IsU64 (length (items_encoding (Items.cons i is)))
    → 0 < length (items_encoding (Items.cons i is))
unfolding item_encoding
items_encoding_pos i is u =
    let count = length-append (item_encoding i) (items_encoding is) in
    omega (arith, count, item_encoding_pos i (omega (arith, count)))

-- A list, given that its elements decode.
decode_seq :
    {edge : Edge} (fuel : ℕ) (is : Items) (s : Stream) (rest : List ℕ) (st : List ListPos)
    → IsReady edge s (item_encoding (Item.seq is) ++ rest) st
    → HasRoom (length (item_encoding (Item.seq is))) st
    → IsU64 (length (item_encoding (Item.seq is)))
    → length (item_encoding (Item.seq is)) < suc fuel
    → ((f : Stream) (st' : List ListPos)
        → IsReady edge f
            (items_encoding is ++ rest)
            (record { pos = 0; size = length (items_encoding is) } ∷ st')
        → IsU64 (length (items_encoding is))
        → length (items_encoding is) < fuel
        → DecodesAll edge fuel fuel is f rest (length (items_encoding is)) st')
    → Decodes edge (suc fuel) (Item.seq is) s rest st
unfolding item_encoding
decode_seq fuel Items.nil s rest st p room u enough inside =
    decode_list fuel Items.nil s rest st p room u (λ f st' at_f. (
      f,
      at_f.0,
      λ s' left enter ends. list_slice-empty fuel (decode_interface fuel) s' f left enter ends,
    ))
decode_seq fuel (Items.cons i is) s rest st p room u enough inside =
    let all : Items = Items.cons i is in
    let n : ℕ = length (items_encoding all) in
    let count = length-append (put_head 0xC0 0xF7 n) (items_encoding all) in
    let fits : IsU64 n = omega (arith, count) in
    let short : n < fuel = omega (arith, count, length-put_head 0xC0 0xF7 n fits) in
    let above = items_encoding_pos i is fits in
    decode_list fuel all s rest st p room u (λ f st' at_f.
      let (t, elements, q) = inside f st' at_f fits short in
      (
        t,
        q,
        λ s' left enter ends.
            list_slice-full fuel n (decode_interface fuel) all s' f t left above enter elements
              ends,
      ))

mutual
  unfolding item_encoding

  Decodes-item :
      {edge : Edge} (i : Item) (fuel : ℕ) (s : Stream) (rest : List ℕ) (st : List ListPos)
      → IsReady edge s (item_encoding i ++ rest) st
      → HasRoom (length (item_encoding i)) st
      → IsU64 (length (item_encoding i))
      → length (item_encoding i) < fuel
      → Decodes edge fuel i s rest st
  Decodes-item i zero s rest st p room u enough = absurd (omega arith)
  Decodes-item (Item.str c) (suc fuel) s rest st p room u enough =
      decode_text fuel c s rest st p room u
  Decodes-item (Item.seq is) (suc fuel) s rest st p room u enough =
      decode_seq fuel is s rest st p room u enough (λ f st' at_f fits short.
        items_decode is fuel fuel f rest 0 (length (items_encoding is)) st' (omega arith) at_f fits
          short short)

  items_decode :
      {edge : Edge} (is : Items) (rounds fuel : ℕ) (s : Stream) (rest : List ℕ) (m n : ℕ)
      (st : List ListPos)
      → n ≡ m + length (items_encoding is)
      → IsReady edge s (items_encoding is ++ rest) (record { pos = m; size = n } ∷ st)
      → IsU64 n
      → length (items_encoding is) < rounds
      → length (items_encoding is) < fuel
      → DecodesAll edge rounds fuel is s rest n st
  items_decode is zero fuel s rest m n st whole p u enough deep = absurd (omega arith)
  items_decode is (suc rounds) zero s rest m n st whole p u enough deep = absurd (omega arith)
  items_decode Items.nil (suc rounds) (suc fuel) s rest m n st whole p u enough deep =
      let e : m ≡ n = omega (arith, whole) in decode_none rounds fuel s rest n st (rw e at p)
  items_decode (Items.cons i is) (suc rounds) fuel s rest m n st whole p u enough deep =
      let e : List ℕ = item_encoding i in
      let more : List ℕ = items_encoding is in
      let count = length-append e more in
      let fits : IsU64 (length e) = omega (arith, whole, count) in
      let d =
        Decodes-item i fuel s (more ++ rest) (record { pos = m; size = n } ∷ st)
          (rw (append_assoc e more rest) at p) (omega (arith, whole, count), u) fits
          (omega (arith, count)) in
      decode_more rounds fuel i is s (more ++ rest) rest m n st d (
        items_decode is rounds fuel d.0 rest (m + length e) n st (omega (arith, whole, count)) d.2 u
          (omega (arith, count, item_encoding_pos i fits)) (omega (arith, count)))

-- DecodeBytes into an empty interface returns the item, nested to any depth, from its encoding,
-- if that is shorter than 2 ^ 64 bytes; a round of fuel per byte and one more is enough.
pub decode_bytes-item_encoding :
    (i : Item)
    → IsU64 (length (item_encoding i))
    → (s : Stream) × (decode_bytes (item_encoding i) ≡ ok i s)
unfolding decode_bytes
decode_bytes-item_encoding i u =
    let b : List ℕ = item_encoding i in
    let (s, e, (p, free)) =
      Decodes-item i (suc (length b)) (new_stream b (length b)) [] []
        (new_stream-IsReady b (b ++ []) (sym (append-nil b))) tt u (omega arith) in
    (s, ground (arith, e, p.input))

-- DecodeBytes into an empty interface returns ErrMoreThanOneValue where any byte follows the
-- encoding of an item, if that encoding is shorter than 2 ^ 64 bytes.
pub decode_bytes-more :
    (i : Item) (x : ℕ) (more : List ℕ)
    → IsU64 (length (item_encoding i))
    → (s : Stream) × (decode_bytes (item_encoding i ++ x ∷ more) ≡ err more_than_one_value s)
unfolding decode_bytes
decode_bytes-more i x more u =
    let b : List ℕ = item_encoding i ++ x ∷ more in
    let (s, e, (p, free)) =
      Decodes-item i (suc (length b)) (new_stream b (length b)) (x ∷ more) []
        (new_stream-IsReady b b refl) tt u
        (omega (arith, length-append (item_encoding i) (x ∷ more))) in
    (s, ground (arith, e, p.input))
