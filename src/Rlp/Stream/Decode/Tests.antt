-- ===== src/Rlp/Stream/Decode/Tests.antt =====
-- Runs of the stream decoder, and the theorems at concrete inputs.
use go_fiscobcos.Base.{
  ℕ, ◌≡◌, refl, List, [], ◌∷◌, ◌++◌, length, arith, Option, none, some, true, false, sym,
  append-nil, ◌+◌, IsU64,
}
use go_fiscobcos.Rlp.Types.{string, more_than_one_value}
use go_fiscobcos.Rlp.Head.{put_head}
use go_fiscobcos.Rlp.Item.{Item, Items, item_encoding}
use go_fiscobcos.Rlp.Writer.{nat_bytes}
use go_fiscobcos.Rlp.Writer.Encoding.{string_encoding}
use go_fiscobcos.Rlp.Stream.{
  Stream, Reply, ok, err, will_read, read_byte, read_full, tag_of_byte, read_kind, keep_tag, kind,
  bytes, raw, uint, enter_list, list_end, new_stream,
}
use go_fiscobcos.Rlp.Stream.Position.{Edge, edge_behind, IsReady, IsReady-edge_behind}
use go_fiscobcos.Rlp.Stream.Values.{bytes-string_encoding}
use go_fiscobcos.Rlp.Stream.Whole.{raw-item_encoding}
use go_fiscobcos.Rlp.Stream.Numbers.{uint-nat_bytes}
use go_fiscobcos.Rlp.Stream.Again.{kind_again}
use go_fiscobcos.Rlp.Stream.Decode.{elems, list_slice, decode_interface, decode_bytes}
use go_fiscobcos.Rlp.Stream.Decode.RoundTrip.{decode_bytes-item_encoding, decode_bytes-more}

abbrev result_of {ℓ} : {A : Type ℓ} → Reply A → Option A
result_of (ok a s) = some a
result_of _ = none

abbrev cat : List ℕ
cat = 99 ∷ 97 ∷ 116 ∷ []

-- [ "cat", [], 5 ]
abbrev pets : Item
pets = Item.seq (
    Items.cons (Item.str cat)
      (Items.cons (Item.seq Items.nil) (Items.cons (Item.str (5 ∷ [])) Items.nil)))

pets_short : IsU64 (length (item_encoding pets))
unfolding item_encoding put_head
pets_short = omega arith

decode-pets : result_of (decode_bytes (0xC6 ∷ 0x83 ∷ 99 ∷ 97 ∷ 116 ∷ 0xC0 ∷ 5 ∷ [])) ≡ some pets
unfolding decode_bytes decode_interface list_slice elems kind bytes enter_list list_end new_stream
    read_kind keep_tag read_byte tag_of_byte read_full will_read
decode-pets = refl

decode_bytes-item_encoding_example : (s : Stream) × (decode_bytes (item_encoding pets) ≡ ok pets s)
decode_bytes-item_encoding_example = decode_bytes-item_encoding pets pets_short

decode_bytes-more_example :
    (s : Stream) × (decode_bytes (item_encoding pets ++ 1 ∷ []) ≡ err more_than_one_value s)
decode_bytes-more_example = decode_bytes-more pets 1 [] pets_short

abbrev front : List ℕ → Stream
front b = new_stream b (length b)

-- Inside of a list of 9 bytes, without a limit.
abbrev inside : List ℕ → Stream
inside b = record {
  input = b;
  remaining = 0;
  limited = false;
  kind = none;
  size = 0;
  byteval = 0;
  kinderr = none;
  stack = record { pos = 1; size = 9 } ∷ [];
}

abbrev unlimited : Edge
unlimited = record { beyond = []; limited = false; spare = 0 }

bytes-string_encoding_example :
    (s : Stream) × (bytes (inside (string_encoding cat ++ 7 ∷ [])) ≡ ok cat s)
    × IsReady unlimited s (7 ∷ []) (record { pos = 5; size = 9 } ∷ [])
unfolding put_head
bytes-string_encoding_example =
    bytes-string_encoding (inside (string_encoding cat ++ 7 ∷ [])) cat (7 ∷ [])
      (record { pos = 1; size = 9 } ∷ []) (omega arith)
      (record { input = refl; limited = refl; remaining = λ limit. cc; stack = refl }, refl)
      (omega arith, omega arith)

-- The reader has one byte more than the limit allows.
abbrev cut : Stream
cut = new_stream (item_encoding pets ++ 7 ∷ []) (length (item_encoding pets))

cut-IsReady :
    IsReady (edge_behind cut (item_encoding pets) (7 ∷ [])) cut (item_encoding pets ++ []) []
unfolding new_stream item_encoding put_head
cut-IsReady = IsReady-edge_behind cut (item_encoding pets) (7 ∷ []) refl (λ limit. omega arith) refl

raw-item_encoding_example :
    (s : Stream) × (raw cut ≡ ok (item_encoding pets) s)
    × IsReady (edge_behind cut (item_encoding pets) (7 ∷ [])) s [] []
raw-item_encoding_example = raw-item_encoding pets cut [] [] cut-IsReady tt pets_short

-- The limit allows two bytes more than the reader has.
abbrev loose : Edge
loose = record { beyond = []; limited = true; spare = 2 }

abbrev loose_front : Stream
loose_front = record {
  input = string_encoding (nat_bytes 1024) ++ 7 ∷ [];
  remaining = length (string_encoding (nat_bytes 1024) ++ 7 ∷ []) + 2;
  limited = true;
  kind = none;
  size = 0;
  byteval = 0;
  kinderr = none;
  stack = [];
}

loose_front-IsReady : IsReady loose loose_front (string_encoding (nat_bytes 1024) ++ 7 ∷ []) []
loose_front-IsReady = (
  record {
    input = sym (append-nil (string_encoding (nat_bytes 1024) ++ 7 ∷ []));
    limited = refl;
    remaining = λ limit. refl;
    stack = refl;
  },
  refl,
)

uint-nat_bytes_example :
    (s : Stream) × (uint 64 loose_front ≡ ok 1024 s) × IsReady loose s (7 ∷ []) []
uint-nat_bytes_example =
    uint-nat_bytes 1024 loose_front (7 ∷ []) [] (omega arith) loose_front-IsReady tt

abbrev behind_tag : Stream
behind_tag = record {
  input = cat;
  remaining = 3;
  limited = true;
  kind = some string;
  size = 3;
  byteval = 0;
  kinderr = none;
  stack = [];
}

kind-cat : kind (front (0x83 ∷ cat)) ≡ ok (string, 3) behind_tag
unfolding kind read_kind keep_tag read_byte tag_of_byte new_stream will_read
kind-cat = refl

kind_again_example : kind behind_tag ≡ ok (string, 3) behind_tag
kind_again_example = kind_again (front (0x83 ∷ cat)) behind_tag (string, 3) kind-cat
