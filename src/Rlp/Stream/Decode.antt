-- ===== src/Rlp/Stream/Decode.antt =====
-- rlp/decode.go: decodeInterface with the decoders of lists that it uses. The target is an empty
-- interface, so that strings become byte slices and lists slices of such values; growing the slice
-- is appending to it. The type and the path that wrapStreamError and addErrorContext put around an
-- error are left out; what is inside of a decodeError stays.
pub mod Steps
pub mod RoundTrip
mod Tests
use go_fiscobcos.Base.{ℕ, zero, suc, List, [], ◌∷◌, length, ◌==◌, if◌then◌else◌}
use go_fiscobcos.Rlp.Types.{Kind, byte, string, list, Error, eol, more_than_one_value}
use go_fiscobcos.Rlp.Item.{Item, Items}
use go_fiscobcos.Rlp.Stream.{
  Stream, Reply, ok, err, stuck, M, ◌>>=◌, ◌>>◌, return, kind, bytes, enter_list, list_end,
  new_stream,
}

-- The loop of decodeSliceElems: elements until the decoder of one returns EOL.
pub elems : ℕ → M Item → M Items
elems zero elem s = stuck
elems (suc fuel) elem s = elim (elem s) [
  | ok i s' ↦ (elems fuel elem >>= λ is. return (Items.cons i is)) s'
  | err eol s' ↦ ok Items.nil s'
  | err e s' ↦ err e s'
  | stuck ↦ stuck
]

-- decodeListSlice.
pub list_slice : ℕ → M Item → M Item
unfolding elems
list_slice fuel elem = do
  size ← enter_list
  if size == 0
      then (list_end >> return (Item.seq Items.nil))
      else (do is ← elems fuel elem; list_end; return (Item.seq is))

-- decodeInterface, where the fuel bounds how deep lists are nested and how long each is.
pub decode_interface : ℕ → M Item
unfolding list_slice
decode_interface zero s = stuck
decode_interface (suc fuel) s = elim (kind s) [
  | ok (k, size) s' ↦ elim k [
    | list ↦ list_slice fuel (decode_interface fuel) s'
    | byte ↦ (bytes >>= λ b. return (Item.str b)) s'
    | string ↦ (bytes >>= λ b. return (Item.str b)) s'
  ]
  | err e s' ↦ err e s'
  | stuck ↦ stuck
]

-- DecodeBytes into an empty interface: a stream over the input, which must then be used up. There
-- is fuel for a round for each byte.
pub decode_bytes : List ℕ → Reply Item
unfolding decode_interface
decode_bytes b = elim (decode_interface (suc (length b)) (new_stream b (length b))) [
  | ok i s ↦ elim s.input [ [] ↦ ok i s | x ∷ rest ↦ err more_than_one_value s ]
  | err e s ↦ err e s
  | stuck ↦ stuck
]
