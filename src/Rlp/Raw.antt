-- ===== src/Rlp/Raw.antt =====
-- rlp/raw.go: splitting encoded values without decoding them. The model leaves out what Go
-- returns beside an error (zero values and the unchanged input). Lengths are below 2 ^ 64, as every
-- Go `int` is.
mod Tests
pub mod Size
pub mod Frame
pub mod Split
pub mod Count
use go_fiscobcos.Base.{
  ℕ, suc, zero, ◌+◌, ◌-◌, ◌*◌, ◌%◌, ◌^◌, Bool, true, false, ◌&&◌, Option, none, some, List, [], ◌∷◌,
  length, ltb, ◌==◌, if◌then◌else◌, Outcome, ok, err, panic, ◌>>=◌, ◌>>◌, load, slice_from,
  slice_to, bit_or, sub_u64,
}
use go_fiscobcos.Rlp.Types.{
  Kind, byte, string, list, Error, unexpected_eof, canon_size, value_too_large, expected_string,
  expected_list,
}
use go_fiscobcos.Rlp.Head.{head_size}

pub list_size : ℕ → ℕ
list_size content = (head_size content + content) % 2 ^ 64

-- `uint64(b[0])<<k0 | uint64(b[1])<<k1 | …`, read from the left; a shift of a byte by at most 56
-- stays below 2 ^ 64.
or_shifted : List ℕ → List ℕ → ℕ → Outcome Error ℕ
or_shifted b [] acc = ok acc
or_shifted [] (k ∷ ks) acc = panic
or_shifted (x ∷ b) (k ∷ ks) acc = or_shifted b ks (bit_or acc (x * 2 ^ k))

-- The `switch slen` of readSize.
pub size_value : List ℕ → ℕ → Outcome Error ℕ
size_value b slen =
    if slen == 1
    then or_shifted b (0 ∷ []) 0
    else if slen == 2
    then or_shifted b (8 ∷ 0 ∷ []) 0
    else if slen == 3
    then or_shifted b (16 ∷ 8 ∷ 0 ∷ []) 0
    else if slen == 4
    then or_shifted b (24 ∷ 16 ∷ 8 ∷ 0 ∷ []) 0
    else if slen == 5
    then or_shifted b (32 ∷ 24 ∷ 16 ∷ 8 ∷ 0 ∷ []) 0
    else if slen == 6
    then or_shifted b (40 ∷ 32 ∷ 24 ∷ 16 ∷ 8 ∷ 0 ∷ []) 0
    else if slen == 7
    then or_shifted b (48 ∷ 40 ∷ 32 ∷ 24 ∷ 16 ∷ 8 ∷ 0 ∷ []) 0
    else if slen == 8
    then or_shifted b (56 ∷ 48 ∷ 40 ∷ 32 ∷ 24 ∷ 16 ∷ 8 ∷ 0 ∷ []) 0
    else ok 0

pub read_size : List ℕ → ℕ → Outcome Error ℕ
read_size b slen = if ltb (length b) slen then err unexpected_eof else do
  s ← size_value b slen
  let checked : Outcome Error ℕ = do first ← load b 0; if first == 0 then err canon_size else ok s
  if ltb s 56 then err canon_size else checked

-- `len(buf) > 1 && buf[1] < 128`, of `buf[1:]`.
pub starts_low : List ℕ → Bool
starts_low [] = false
starts_low (x ∷ t) = ltb x 128

-- The `switch` of readKind on the first byte, before the check against the input's length. The
-- second list is `buf[1:]`. What is read is the kind, the size of the tag and of the content.
pub read_tag : ℕ → List ℕ → Outcome Error (Kind × ℕ × ℕ)
unfolding starts_low
read_tag b t =
    if ltb b 0x80
    then ok (byte, 0, 1)
    else if ltb b 0xB8
    then (if b - 0x80 == 1 && starts_low t then err canon_size else ok (string, 1, b - 0x80))
    else if ltb b 0xC0
    then (read_size t (b - 0xB7) >>= λ cs. ok (string, b - 0xB7 + 1, cs))
    else if ltb b 0xF8
    then ok (list, 1, b - 0xC0)
    else (read_size t (b - 0xF7) >>= λ cs. ok (list, b - 0xF7 + 1, cs))

pub read_kind : List ℕ → Outcome Error (Kind × ℕ × ℕ)
read_kind [] = err unexpected_eof
read_kind (b ∷ t) = do
  (k, ts, cs) ← read_tag b t
  if ltb (sub_u64 (suc (length t)) ts) cs then err value_too_large else ok (k, ts, cs)

-- `b[ts:ts+cs]` and `b[ts+cs:]`, with the bounds checks of the slices.
pub split : List ℕ → Outcome Error (Kind × List ℕ × List ℕ)
split b = do
  (k, ts, cs) ← read_kind b
  upto ← slice_to b (ts + cs)
  content ← slice_from upto ts
  rest ← slice_from b (ts + cs)
  ok (k, content, rest)

pub split_string : List ℕ → Outcome Error (List ℕ × List ℕ)
split_string b = do
  (k, content, rest) ← split b
  elim k [ list ↦ err expected_string | _ ↦ ok (content, rest) ]

pub split_list : List ℕ → Outcome Error (List ℕ × List ℕ)
split_list b = do
  (k, content, rest) ← split b
  elim k [ list ↦ ok (content, rest) | _ ↦ err expected_list ]

-- The loop of CountValues over `b`, with the count `i`; `none` means that the fuel ran out.
pub count_loop : ℕ → List ℕ → ℕ → Option (Outcome Error ℕ)
count_loop fuel [] i = some (ok i)
count_loop zero (x ∷ b) i = none
count_loop (suc fuel) (x ∷ b) i = elim (read_kind (x ∷ b)) [
  | ok (k, ts, cs) ↦ elim (slice_from {E = Error} (x ∷ b) (ts + cs)) [
    | ok rest ↦ count_loop fuel rest (i + 1)
    | err e ↦ some (err e)
    | panic ↦ some panic
  ]
  | err e ↦ some (err e)
  | panic ↦ some panic
]

-- Every round takes a byte, so that `length b` rounds are enough.
pub count_values : List ℕ → Option (Outcome Error ℕ)
unfolding count_loop
count_values b = count_loop (length b) b 0
