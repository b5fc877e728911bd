-- ===== src/Rlp/Writer.antt =====
-- rlp/encode.go: the writers of a value. makeWriter picks a writer by the type of a Go value;
-- a `Value` is a Go value with that choice made. A non-nil pointer or interface is written as what
-- it holds, so it has no constructor of its own; types with their own EncodeRLP are left out.
mod Tests
pub mod Encoding
pub mod Correct
pub mod Scalars
pub mod Steps
use go_fiscobcos.Base.{
  ℕ, zero, suc, ◌+◌, ◌-◌, ◌/◌, ◌%◌, ◌<◌, Bool, true, false, List, [], ◌∷◌, ◌++◌, length, ltb, ◌==◌,
  if◌then◌else◌, Outcome, ok, err, panic, ◌>>=◌, ℤ, pos, negsuc, lt_wf, arith,
}
use mathlib.Core.Logic.{dite}
use mathlib.Core.WellFounded.{Acc}
use native.Mathlib.Decide.{dec_lt}
use go_fiscobcos.Rlp.Types.{Error, negative_int, Kind}
use go_fiscobcos.Rlp.Head.{put_int}
use go_fiscobcos.Rlp.Buffer
use go_fiscobcos.Rlp.Buffer.{EncBuf, empty, write, encode_string, encode_string_header, list_end}

mutual
  -- `seq` is a slice or an array of elements that are not bytes, or a struct; `tail_seq` is a slice
  -- with the tag "tail". `text` is a string, `bytes` a byte slice or a byte array. `nil_ptr` holds
  -- the nil kind of the pointer type.
  pub data Value : Type 0 where
    raw : List ℕ → Value
    uint : ℕ → Value
    bool : Bool → Value
    big : ℤ → Value
    nil_big : Value
    text : List ℕ → Value
    bytes : List ℕ → Value
    seq : Values → Value
    tail_seq : Values → Value
    nil_ptr : Kind → Value
    nil_interface : Value

  pub data Values : Type 0 where
    nil : Values
    cons : Value → Values → Values

div_shrinks : (n : ℕ) → 0 < n → n / 256 < n
div_shrinks n h = omega arith

-- big.Int.Bytes: the base-256 digits of a number, the highest first; none for 0.
pub nat_bytes_acc : (n : ℕ) → Acc ◌<◌ n → List ℕ
nat_bytes_acc n (Acc.intro _ smaller) =
    dite (dec_lt 0 n) (λ h. nat_bytes_acc (n / 256) (smaller _ (div_shrinks n h)) ++ (n % 256) ∷ [])
      (λ _. [])

pub nat_bytes : ℕ → List ℕ
unfolding nat_bytes_acc lt_wf dec_lt
nat_bytes n = nat_bytes_acc n (lt_wf.apply n)

pub write_uint : ℕ → EncBuf → EncBuf
write_uint i w =
    if i == 0
    then write (0x80 ∷ []) w
    else if ltb i 128
    then write (i % 256 ∷ []) w
    else write ((0x80 + length (put_int i) % 256) % 256 ∷ put_int i) w

pub write_bool : Bool → EncBuf → EncBuf
write_bool b w = write ((if b then 0x01 else 0x80) ∷ []) w

pub write_big_int : ℤ → EncBuf → Outcome Error EncBuf
write_big_int (negsuc n) w = err negative_int
write_big_int (pos n) w = ok (if n == 0 then write (0x80 ∷ []) w else encode_string (nat_bytes n) w)

-- writeString repeats the code of encodeString.
pub write_string : List ℕ → EncBuf → EncBuf
write_string (x ∷ []) w =
    if ltb x 0x80 then write (x ∷ []) w else write (x ∷ []) (encode_string_header 1 w)
write_string s w = write s (encode_string_header (length s) w)

-- The header of an empty list: `w.listEnd(w.list())`.
pub empty_list : EncBuf → EncBuf
empty_list w = let (lh, w') = Buffer.list w in list_end lh w'

pub write_nil_ptr : Kind → EncBuf → EncBuf
unfolding empty_list
write_nil_ptr Kind.string w = write (0x80 ∷ []) w
write_nil_ptr k w = empty_list w

-- A buffer after an error is not used again: it goes back to the pool, and is reset when it is
-- taken out. So that part of the deferred listEnd is left out.
mutual
  pub write_value : Value → EncBuf → Outcome Error EncBuf
  write_value (raw b) w = ok (write b w)
  write_value (uint i) w = ok (write_uint i w)
  write_value (bool b) w = ok (write_bool b w)
  write_value (big i) w = write_big_int i w
  write_value nil_big w = ok (write (0x80 ∷ []) w)
  write_value (text s) w = ok (write_string s w)
  write_value (bytes b) w = ok (encode_string b w)
  write_value (seq vs) w =
      write_values vs (Buffer.list w).1 >>= λ w'. ok (list_end (Buffer.list w).0 w')
  write_value (tail_seq vs) w = write_values vs w
  write_value (nil_ptr k) w = ok (write_nil_ptr k w)
  write_value nil_interface w = ok (write (0xC0 ∷ []) w)

  pub write_values : Values → EncBuf → Outcome Error EncBuf
  write_values nil w = ok w
  write_values (cons v vs) w = write_value v w >>= λ w'. write_values vs w'

pub encode_to_bytes : Value → Outcome Error (List ℕ)
encode_to_bytes v = do w ← write_value v empty; Buffer.to_bytes w
