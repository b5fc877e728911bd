-- ===== src/Rlp/Item.antt =====
-- The data that RLP encodes, strings and lists of items, and its encoding. decodeInterface of
-- rlp/decode.go decodes to such values: a []byte or a []interface{}.
use go_fiscobcos.Base.{ℕ, List, [], ◌++◌, IsByte, All}
use go_fiscobcos.Rlp.Writer.Encoding.{string_encoding, list_encoding}

mutual
  pub data Item : Type 0 where
    str : List ℕ → Item
    seq : Items → Item

  pub data Items : Type 0 where
    nil : Items
    cons : Item → Items → Items

unfoldable mutual
  pub item_encoding : Item → List ℕ
  item_encoding (Item.str s) = string_encoding s
  item_encoding (Item.seq is) = list_encoding (items_encoding is)

  pub items_encoding : Items → List ℕ
  items_encoding Items.nil = []
  items_encoding (Items.cons i is) = item_encoding i ++ items_encoding is

unfoldable mutual
  pub IsBytes : Item → Type 0
  IsBytes (Item.str s) = All IsByte s
  IsBytes (Item.seq is) = AllBytes is

  pub AllBytes : Items → Type 0
  AllBytes Items.nil = Unit {0}
  AllBytes (Items.cons i is) = IsBytes i × AllBytes is
