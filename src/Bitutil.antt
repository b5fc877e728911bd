-- ===== src/Bitutil.antt =====
-- common/bitutil/compress.go: compression of byte slices with many zero bytes. Go's nil and the
-- empty slice are one list. An int target is an integer, and `max_alloc` is the length up to which
-- make([]byte, n) returns: it panics beyond. The test `x & (1 << k) != 0` and `x | 1 << k` are written by the binary
-- digits of x.
pub mod Bits
pub mod Words
pub mod Gather
pub mod Scatter
pub mod Levels
pub mod Zeros
pub mod RoundTrip
pub mod Safe
pub mod Format
mod Tests
use mathlib.Core.Logic.{dite}
use mathlib.Core.WellFounded.{Acc}
use native.Mathlib.Decide.{dec_lt}
use go_fiscobcos.Base.{
  ℕ, zero, suc, ◌+◌, ◌-◌, ◌*◌, ◌/◌, ◌%◌, ◌<◌, Bool, true, false, List, [], ◌∷◌, ◌++◌, length, ltb,
  leb, ◌==◌, if◌then◌else◌, get_elem?, set, replicate, none, some, Outcome, ok, err, panic, ◌>>=◌,
  load, lt_wf, arith, ℤ, pos, negsuc,
}

pub data Error : Type 0 where
  missing_data : Error
  unreferenced_data : Error
  exceeded_target : Error
  zero_content : Error

abbrev pub test_bit : ℕ → ℕ → Bool
test_bit x zero = x % 2 == 1
test_bit x (suc k) = test_bit (x / 2) k

abbrev pub or_bit : ℕ → ℕ → ℕ
or_bit x zero = x / 2 * 2 + 1
or_bit x (suc k) = or_bit (x / 2) k * 2 + x % 2

-- `nonZeroBitset[i/8] |= 1 << byte(7-i%8)`; the index is one of the bitset.
pub mark : List ℕ → ℕ → List ℕ
mark s i = elim (get_elem? s (i / 8)) [ none ↦ s | some x ↦ set s (i / 8) (or_bit x (7 - i % 8)) ]

-- The loop of bitsetEncodeBytes, from index `i`: the bitset and the bytes that are not 0.
pub gather : List ℕ → ℕ → List ℕ → List ℕ → List ℕ × List ℕ
unfolding mark
gather [] i s nz = (s, nz)
gather (b ∷ data_) i s nz =
    gather data_ (i + 1) (if b == 0 then s else mark s i) (if b == 0 then nz else nz ++ b ∷ [])

-- At most one byte.
pub encode_few : List ℕ → List ℕ
encode_few [] = []
encode_few (b ∷ t) = if b == 0 then [] else b ∷ t

pub shrinks : (n : ℕ) → 1 < n → (n + 7) / 8 < n
shrinks n h = omega arith

-- bitsetEncodeBytes, where `n` is the number of bytes.
pub encode_acc : (n : ℕ) → List ℕ → Acc ◌<◌ n → List ℕ
unfolding gather encode_few
encode_acc n bytes (Acc.intro _ smaller) =
    dite (dec_lt 1 n)
      (λ many.
        let (s, nz) = gather bytes 0 (replicate ((n + 7) / 8) 0) [] in
        elim nz [
          | [] ↦ []
          | b ∷ t ↦ encode_acc ((n + 7) / 8) s (smaller ((n + 7) / 8) (shrinks n many)) ++ b ∷ t
        ])
      (λ _. encode_few bytes)

pub bitset_encode_bytes : List ℕ → List ℕ
unfolding encode_acc lt_wf dec_lt
bitset_encode_bytes bytes = encode_acc (length bytes) bytes (lt_wf.apply (length bytes))

pub compress_bytes : List ℕ → List ℕ
unfolding bitset_encode_bytes
compress_bytes bytes =
    let out = bitset_encode_bytes bytes in if ltb (length out) (length bytes) then out else bytes

-- One round of the loop of bitsetDecodePartialBytes at index `i`: the pointer into the input and the
-- output after it.
pub place : ℕ → List ℕ → List ℕ → ℕ → List ℕ → Outcome Error (ℕ × List ℕ)
place i s bytes ptr out = do
  x ← load s (i / 8)
  let put : Outcome Error (ℕ × List ℕ) = do
    b ← load bytes ptr
    if b == 0 then err zero_content else ok (ptr + 1, set out i b)
  if test_bit x (7 - i % 8)
      then (if leb (length bytes) ptr
          then err missing_data
          else if leb (length out) i
          then err exceeded_target
          else put)
      else ok (ptr, out)

pub scatter : ℕ → ℕ → List ℕ → List ℕ → ℕ → List ℕ → Outcome Error (List ℕ × ℕ)
unfolding place
scatter zero i s bytes ptr out = ok (out, ptr)
scatter (suc rounds) i s bytes ptr out = do
  (ptr', out') ← place i s bytes ptr out
  scatter rounds (i + 1) s bytes ptr' out'

-- A target of at most one byte.
pub decode_few : List ℕ → ℕ → Outcome Error (List ℕ × ℕ)
decode_few bytes zero = ok ([], 0)
decode_few [] (suc n) = ok (0 ∷ [], 0)
decode_few (b ∷ t) (suc n) = if b == 0 then ok (b ∷ [], 0) else ok (b ∷ [], 1)

-- bitsetDecodePartialBytes: the output, and how much of the input it stands for.
pub decode_acc : List ℕ → (target : ℕ) → Acc ◌<◌ target → Outcome Error (List ℕ × ℕ)
unfolding scatter decode_few
decode_acc bytes target (Acc.intro _ smaller) =
    dite (dec_lt 1 target)
      (λ many. elim bytes [
        | [] ↦ ok (replicate target 0, 0)
        | b ∷ t ↦
            decode_acc (b ∷ t) ((target + 7) / 8) (smaller ((target + 7) / 8) (shrinks target many))
            >>= λ (s, ptr). scatter (8 * length s) 0 s (b ∷ t) ptr (replicate target 0)
      ])
      (λ _. decode_few bytes target)

module _ (max_alloc : ℕ) where
  -- The slices of the levels below are no longer than the one of this level, so that it is enough to
  -- test its length.
  pub bitset_decode_partial_bytes : List ℕ → ℕ → Outcome Error (List ℕ × ℕ)
  unfolding decode_acc lt_wf dec_lt
  bitset_decode_partial_bytes bytes target =
      if ltb max_alloc target then panic else decode_acc bytes target (lt_wf.apply target)

  pub bitset_decode_bytes : List ℕ → ℕ → Outcome Error (List ℕ)
  unfolding bitset_decode_partial_bytes
  bitset_decode_bytes bytes target = do
    (out, size) ← bitset_decode_partial_bytes bytes target
    if size == length bytes then ok out else err unreferenced_data

  pub decompress_bytes : List ℕ → ℤ → Outcome Error (List ℕ)
  unfolding bitset_decode_bytes
  decompress_bytes bytes (negsuc n) = err exceeded_target
  decompress_bytes bytes (pos target) =
      if ltb target (length bytes)
      then err exceeded_target
      else if length bytes == target
      then ok bytes
      else bitset_decode_bytes bytes target
