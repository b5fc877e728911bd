-- ===== src/Rlp/Stream.antt =====
-- rlp/decode.go: Stream, the piecemeal decoder. The reader is one that has all its bytes at hand,
-- such as a bytes.Reader; `input` is what it has not handed out. `kind` is `none` where Go has -1,
-- and the top of the stack of lists comes first. Allocation does not fail in the model.
pub mod Position
pub mod Tags
pub mod Headers
pub mod Values
pub mod Again
pub mod Whole
pub mod Numbers
pub mod Decode
use go_fiscobcos.Base.{
  ℕ, zero, suc, ◌+◌, ◌-◌, ◌*◌, ◌/◌, ◌%◌, ◌^◌, Bool, true, false, ◌&&◌, List, [], ◌∷◌, ◌++◌, length,
  take, drop, ltb, leb, ◌==◌, if◌then◌else◌, Option, none, some, be_value, sub_u64,
}
use go_fiscobcos.Rlp.Types.{
  Kind, byte, string, list, Error, eof, unexpected_eof, eol, expected_string, expected_list,
  canon_int, canon_size, elem_too_large, value_too_large, not_in_list, not_at_eol, uint_overflow,
  invalid_bool,
}
use go_fiscobcos.Rlp.Head.{put_head}

pub record ListPos : Type 0 where
  pub pos : ℕ
  pub size : ℕ

pub record Stream : Type 0 where
  pub input : List ℕ
  pub remaining : ℕ
  pub limited : Bool
  pub kind : Option Kind
  pub size : ℕ
  pub byteval : ℕ
  pub kinderr : Option Error
  pub stack : List ListPos

-- How a method ends: with a value or an error, and the stream as it then is. `stuck` is no Go
-- value: the fuel of a loop ran out.
pub data Reply {ℓ} (A : Type ℓ) : Type ℓ where
  ok : A → Stream → Reply A
  err : Error → Stream → Reply A
  stuck : Reply A

abbrev pub M {ℓ} : Type ℓ → Type ℓ
M A = Stream → Reply A

abbrev pub follow {ℓ κ} : {A : Type ℓ} {B : Type κ} → Reply A → (A → M B) → Reply B
follow (ok a s) f = f a s
follow (err e s) f = err e s
follow stuck f = stuck

infixl 5 ◌>>=◌ ◌>>◌
abbrev pub ◌>>=◌ {ℓ κ} : {A : Type ℓ} {B : Type κ} → M A → (A → M B) → M B
◌>>=◌ m f s = follow (m s) f

abbrev pub ◌>>◌ {ℓ κ} : {A : Type ℓ} {B : Type κ} → M A → M B → M B
◌>>◌ m k = m >>= λ _. k

abbrev pub return {ℓ} : {A : Type ℓ} → A → M A
return a s = ok a s

abbrev pub fail {ℓ} : {A : Type ℓ} → Error → M A
fail e s = err e s

-- `s.kind = -1`
abbrev pub rearm : M (Unit {0})
rearm s = ok tt (record s { kind = none })

-- The check of willRead against the input limit.
take_limit : ℕ → M (Unit {0})
take_limit n s =
    if s.limited
    then (if ltb s.remaining n
        then err value_too_large s
        else ok tt (record s { remaining = s.remaining - n }))
    else ok tt s

-- The check of willRead against the innermost list, which comes first.
take_room : ℕ → M (Unit {0})
take_room n s = elim s.stack [
  | [] ↦ ok tt s
  | tos ∷ outer ↦
      if ltb (sub_u64 tos.size tos.pos) n
      then err elem_too_large s
      else ok tt (record s { stack = record tos { pos = (tos.pos + n) % 2 ^ 64 } ∷ outer })
]

pub will_read : ℕ → M (Unit {0})
unfolding take_limit take_room
will_read n = do rearm; take_room n; take_limit n

-- `s.r.ReadByte()`, with io.EOF turned to io.ErrUnexpectedEOF.
next_byte : M ℕ
next_byte s = elim s.input [
  | [] ↦ err unexpected_eof s
  | x ∷ rest ↦ ok x (record s { input = rest })
]

pub read_byte : M ℕ
unfolding next_byte
read_byte = do will_read 1; next_byte

-- The loop of readFull: it reads `n` bytes, or what there is and then io.ErrUnexpectedEOF.
next_bytes : ℕ → M (List ℕ)
next_bytes n s =
    if leb n (length s.input)
    then ok (take n s.input) (record s { input = drop n s.input })
    else err unexpected_eof (record s { input = [] })

pub read_full : ℕ → M (List ℕ)
unfolding next_bytes
read_full n = do will_read n; next_bytes n

-- The `default` case of readUint, on the bytes that were read; those before them are 0.
checked_uint : List ℕ → M ℕ
checked_uint [] = fail canon_size
checked_uint (x ∷ b) = if x == 0 then fail canon_size else return (be_value 0 (x ∷ b))

pub read_uint : ℕ → M ℕ
unfolding checked_uint
read_uint n =
    if n == 0
    then (rearm >> return 0)
    else if n == 1
    then read_byte
    else (do b ← read_full n; checked_uint b)

-- What Stream.readKind returns: a kind and a size, and perhaps an error beside them.
pub record Tag : Type 0 where
  pub kind : Kind
  pub size : ℕ
  pub error : Option Error

-- The tag that a size makes, for a value with a long header.
pub long_tag : Kind → Reply ℕ → Reply Tag
long_tag k (ok n s) =
    ok (record { kind = k; size = n; error = if ltb n 56 then some canon_size else none }) s
long_tag k (err e s) = ok (record { kind = k; size = 0; error = some e }) s
long_tag k stuck = stuck

-- At toplevel the end of the input is io.EOF.
toplevel_error : Error → List ListPos → Error
toplevel_error unexpected_eof [] = eof
toplevel_error value_too_large [] = eof
toplevel_error e stack = e

pub tag_of_byte : ℕ → M Tag
unfolding long_tag
tag_of_byte b s =
    let s' : Stream = record s { byteval = 0 } in
    if ltb b 0x80
    then ok (record { kind = byte; size = 0; error = none }) (record s { byteval = b })
    else if ltb b 0xB8
    then ok (record { kind = string; size = b - 0x80; error = none }) s'
    else if ltb b 0xC0
    then long_tag string (read_uint (b - 0xB7) s')
    else if ltb b 0xF8
    then ok (record { kind = list; size = b - 0xC0; error = none }) s'
    else long_tag list (read_uint (b - 0xF7) s')

-- Whether there was a byte decides what the tag is.
pub first_byte : Reply ℕ → Reply Tag
unfolding tag_of_byte toplevel_error
first_byte (ok b s) = tag_of_byte b s
first_byte (err e s) =
    ok (record { kind = byte; size = 0; error = some (toplevel_error e s.stack) }) s
first_byte stuck = stuck

pub read_kind : M Tag
unfolding first_byte
read_kind s = first_byte (read_byte s)

-- The checks of Kind on a tag that readKind accepts.
pub size_error : ℕ → Stream → Option Error
size_error n s = elim s.stack [
  | [] ↦ if s.limited && ltb s.remaining n then some value_too_large else none
  | tos ∷ outer ↦ if ltb (sub_u64 tos.size tos.pos) n then some elem_too_large else none
]

-- `tos != nil && tos.pos == tos.size`
pub at_end : List ListPos → Bool
at_end [] = false
at_end (tos ∷ outer) = tos.pos == tos.size

-- What Kind returns of the stored kind, size and error.
pub stored : Kind → M (Kind × ℕ)
stored k s = elim s.kinderr [ none ↦ ok (k, s.size) s | some e ↦ err e s ]

pub keep_tag : Tag → M (Kind × ℕ)
unfolding size_error stored
keep_tag t s =
    let e : Option Error = elim t.error [ none ↦ size_error t.size s | some e ↦ some e ] in
    stored t.kind (record s { kind = some t.kind; size = t.size; kinderr = e })

pub kind : M (Kind × ℕ)
unfolding at_end
kind s = elim s.kind [
  | some k ↦ stored k s
  | none ↦
      if at_end s.stack
      then err eol (record s { kinderr = none })
      else (read_kind >>= keep_tag) (record s { kinderr = none })
]

-- `s.kind = -1` and the byte of the tag.
tag_byte : M ℕ
tag_byte s = ok s.byteval (record s { kind = none })

-- A single byte below 128 has no header.
single : List ℕ → M (List ℕ)
single (x ∷ []) = if ltb x 128 then fail canon_size else return (x ∷ [])
single b = return b

pub bytes : M (List ℕ)
unfolding tag_byte single
bytes = do
  (k, size) ← kind
  elim k [
    | byte ↦ (tag_byte >>= λ b. return (b ∷ []))
    | string ↦ (read_full size >>= single)
    | list ↦ fail expected_string
  ]

pub raw : M (List ℕ)
raw = do
  (k, size) ← kind
  elim k [
    | byte ↦ (tag_byte >>= λ b. return (b ∷ []))
    | string ↦ (read_full size >>= λ b. return (put_head 0x80 0xB7 size ++ b))
    | list ↦ (read_full size >>= λ b. return (put_head 0xC0 0xF7 size ++ b))
  ]

-- The error of readUint is one about a size, and is adjusted here.
int_value : ℕ → Reply ℕ → Reply ℕ
int_value size (ok v s) = if ltb 0 size && ltb v 128 then err canon_size s else ok v s
int_value size (err canon_size s) = err canon_int s
int_value size (err e s) = err e s
int_value size stuck = stuck

-- A byte 0 leaves the tag in place.
tag_int : M ℕ
tag_int s = if s.byteval == 0 then err canon_int s else ok s.byteval (record s { kind = none })

pub uint : ℕ → M ℕ
unfolding int_value tag_int
uint maxbits = do
  (k, size) ← kind
  elim k [
    | byte ↦ tag_int
    | string ↦
        if ltb (maxbits / 8) size
        then fail uint_overflow
        else (λ s. int_value size (read_uint size s))
    | list ↦ fail expected_string
  ]

pub bool : M Bool
bool = do
  num ← uint 8
  if num == 0 then return false else if num == 1 then return true else fail invalid_bool

push_list : ℕ → M ℕ
push_list n s =
    ok n (record s { stack = record { pos = 0; size = n } ∷ s.stack; kind = none; size = 0 })

pub enter_list : M ℕ
unfolding push_list
enter_list = do (k, size) ← kind; elim k [ list ↦ push_list size | _ ↦ fail expected_list ]

-- The position of the enclosing list, if any, moves behind the list that ends.
leave : ℕ → List ListPos → List ListPos
leave n [] = []
leave n (tos ∷ outer) = record tos { pos = (tos.pos + n) % 2 ^ 64 } ∷ outer

pub list_end : M (Unit {0})
unfolding leave
list_end s = elim s.stack [
  | [] ↦ err not_in_list s
  | tos ∷ outer ↦
      if tos.pos == tos.size
      then ok tt (record s { stack = leave tos.size outer; kind = none; size = 0 })
      else err not_at_eol s
]

-- NewStream over a bytes.Reader: an explicit limit, or else the length of the input.
pub new_stream : List ℕ → ℕ → Stream
new_stream input limit = record {
  input = input;
  remaining = if ltb 0 limit then limit else length input;
  limited = true;
  kind = none;
  size = 0;
  byteval = 0;
  kinderr = none;
  stack = [];
}
