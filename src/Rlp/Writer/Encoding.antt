-- ===== src/Rlp/Writer/Encoding.antt =====
-- The encoding rules as a function of the value: what the writers and the buffer are to produce.
use go_fiscobcos.Base.{
  ℕ, Bool, true, false, ◌||◌, List, [], ◌∷◌, ◌++◌, length, ltb, if◌then◌else◌, pos, negsuc, IsU64,
}
use go_fiscobcos.Rlp.Types.{Kind}
use go_fiscobcos.Rlp.Head.{put_head}
use go_fiscobcos.Rlp.Writer.{Value, Values, nat_bytes}

-- A string: a byte below 128 stands for itself, and anything else has a header.
abbrev pub string_encoding : List ℕ → List ℕ
string_encoding [] = put_head 0x80 0xB7 0
string_encoding (x ∷ []) = if ltb x 128 then x ∷ [] else put_head 0x80 0xB7 1 ++ x ∷ []
string_encoding (x ∷ y ∷ s) = put_head 0x80 0xB7 (length (x ∷ y ∷ s)) ++ (x ∷ y ∷ s)

abbrev pub list_encoding : List ℕ → List ℕ
list_encoding payload = put_head 0xC0 0xF7 (length payload) ++ payload

-- Numbers are strings of their big-endian bytes, false and 0 the empty string.
unfoldable mutual
  pub encoding : Value → List ℕ
  encoding (Value.raw b) = b
  encoding (Value.uint i) = string_encoding (nat_bytes i)
  encoding (Value.bool b) = if b then string_encoding (1 ∷ []) else string_encoding []
  encoding (Value.big (pos n)) = string_encoding (nat_bytes n)
  encoding (Value.big (negsuc n)) = []
  encoding Value.nil_big = string_encoding []
  encoding (Value.text s) = string_encoding s
  encoding (Value.bytes b) = string_encoding b
  encoding (Value.seq vs) = list_encoding (payload vs)
  encoding (Value.tail_seq vs) = payload vs
  encoding (Value.nil_ptr Kind.string) = string_encoding []
  encoding (Value.nil_ptr Kind.byte) = list_encoding []
  encoding (Value.nil_ptr Kind.list) = list_encoding []
  encoding Value.nil_interface = list_encoding []

  pub payload : Values → List ℕ
  payload Values.nil = []
  payload (Values.cons v vs) = encoding v ++ payload vs

-- A negative big integer has no encoding.
unfoldable mutual
  pub has_negative : Value → Bool
  has_negative (Value.big (negsuc n)) = true
  has_negative (Value.seq vs) = any_negative vs
  has_negative (Value.tail_seq vs) = any_negative vs
  has_negative _ = false

  pub any_negative : Values → Bool
  any_negative Values.nil = false
  any_negative (Values.cons v vs) = has_negative v || any_negative vs

-- The numbers of the Go type uint64 and its smaller relatives.
unfoldable mutual
  pub IsRanged : Value → Type 0
  IsRanged (Value.uint i) = IsU64 i
  IsRanged (Value.seq vs) = AllRanged vs
  IsRanged (Value.tail_seq vs) = AllRanged vs
  IsRanged _ = Unit {0}

  pub AllRanged : Values → Type 0
  AllRanged Values.nil = Unit {0}
  AllRanged (Values.cons v vs) = IsRanged v × AllRanged vs
