-- ===== src/Rlp/Buffer.antt =====
-- rlp/encode.go: the encode buffer. String data and list headers are kept apart, because the size
-- of a list is known only at its end. A list header is named by its index, where Go has a pointer;
-- `sizebuf` is scratch space. Sizes are Go `int`s; in listEnd the difference is not negative, since
-- a buffer only grows.
pub mod Render
pub mod Strings
pub mod Lists
pub mod Output
use go_fiscobcos.Base.{
  ℕ, zero, suc, ◌+◌, ◌-◌, ◌^◌, ◌%◌, List, [], ◌∷◌, ◌++◌, length, take, drop, replicate, get_elem?,
  set, min, ltb, leb, if◌then◌else◌, Outcome, ok, err, panic, ◌>>=◌, ◌>>◌, slice_from, Option, none,
  some,
}
use go_fiscobcos.Rlp.Types.{Error}
use go_fiscobcos.Rlp.Head.{put_int, put_head, head_size, int_size}

pub record ListHead : Type 0 where
  pub offset : ℕ
  pub size : ℕ

pub record EncBuf : Type 0 where
  pub str : List ℕ
  pub lheads : List ListHead
  pub lhsize : ℕ

-- A buffer after reset.
abbrev pub empty : EncBuf
empty = record { str = []; lheads = []; lhsize = 0 }

-- `w.str = append(w.str, b...)`, and the method Write.
abbrev pub write : List ℕ → EncBuf → EncBuf
write b w = record w { str = w.str ++ b }

abbrev pub size : EncBuf → ℕ
size w = length w.str + w.lhsize

-- listhead.encode: the bytes of the header.
abbrev pub encode_head : ListHead → List ℕ
encode_head h = put_head 0xC0 0xF7 h.size

pub encode_string_header : ℕ → EncBuf → EncBuf
encode_string_header n w =
    if ltb n 56
    then write ((0x80 + n % 256) % 256 ∷ []) w
    else write ((0xB7 + length (put_int n) % 256) % 256 ∷ put_int n) w

-- The test `len(b) == 1 && b[0] <= 0x7F`, with the branch where it fails as `long`.
pub encode_string : List ℕ → EncBuf → EncBuf
encode_string (x ∷ []) w =
    if leb x 0x7F then write (x ∷ []) w else write (x ∷ []) (encode_string_header 1 w)
encode_string b w = write b (encode_string_header (length b) w)

-- The new header's index, and the buffer.
pub list : EncBuf → ℕ × EncBuf
list w =
    let lh : ListHead = record { offset = length w.str; size = w.lhsize } in
    (length w.lheads, record w { lheads = w.lheads ++ lh ∷ [] })

-- An index that no header has does not occur: `lh` is a pointer that list returned.
pub list_end : ℕ → EncBuf → EncBuf
list_end i w = elim (get_elem? w.lheads i) [
  | none ↦ w
  | some lh ↦
      let n = size w - lh.offset - lh.size in
      record w {
        lheads = set w.lheads i (record lh { size = n });
        lhsize = if ltb n 56 then w.lhsize + 1 else w.lhsize + (1 + int_size n);
      }
]

-- `copy(out[pos:], src)`, which stops at the end of the shorter one, and the number of bytes copied.
pub copied : List ℕ → ℕ → List ℕ → ℕ
copied out pos src = min (length out - pos) (length src)

pub copy_at : List ℕ → ℕ → List ℕ → List ℕ
copy_at out pos src =
    let n = copied out pos src in take pos out ++ (take n src ++ drop (pos + n) out)

-- `w.str[i:j]`
pub slice : List ℕ → ℕ → ℕ → Outcome Error (List ℕ)
slice b i j =
    if leb i j then (if leb j (length b) then ok (drop i (take j b)) else panic) else panic

-- The loop of toBytes over the headers, with its variables. The header is written to `out[pos:]`,
-- which panics where there is not room for all of it.
pub to_bytes_loop : List ℕ → List ListHead → List ℕ → ℕ → ℕ → Outcome Error (List ℕ)
to_bytes_loop str [] out strpos pos = do
  tail ← slice_from str strpos
  _ ← slice_from out pos
  ok (copy_at out pos tail)
to_bytes_loop str (h ∷ hs) out strpos pos = do
  before ← slice str strpos h.offset
  _ ← slice_from out pos
  let n = copied out pos before
  let out1 = copy_at out pos before
  let enc = encode_head h
  let rest = to_bytes_loop str hs (copy_at out1 (pos + n) enc) (strpos + n) (pos + n + length enc)
  if ltb (length out1 - (pos + n)) (length enc) then panic else rest

pub to_bytes : EncBuf → Outcome Error (List ℕ)
unfolding to_bytes_loop
to_bytes w = to_bytes_loop w.str w.lheads (replicate (size w) 0) 0 0
