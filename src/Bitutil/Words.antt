-- ===== src/Bitutil/Words.antt =====
-- common/bitutil/bitutil.go: operations on the bytes of two slices, one byte at a time or a machine
-- word at a time. The destination shares no memory with the operands. A word is read with its lowest
-- byte first. `supports_unaligned` and `word_size` stand for what the compiler's target fixes.
pub mod Memory
pub mod Same
pub mod Zero
mod Tests
use go_fiscobcos.Base.{
  ℕ, zero, suc, ◌+◌, ◌-◌, ◌*◌, ◌/◌, ◌%◌, min, bit_and, bit_or, bit_xor, Bool, true, false, List, [],
  ◌∷◌, ◌++◌, length, set, take, drop, ltb, leb, ◌==◌, if◌then◌else◌, Outcome, ok, err, ◌>>=◌, load,
}

-- No Go error: a word outside of the slice's memory, whose effect Go does not define.
pub data Unsafe : Type 0 where
  outside : Unsafe

-- The number of a word's bytes, and the bytes of a word.
abbrev pub word_value : List ℕ → ℕ
word_value [] = 0
word_value (b ∷ bs) = b + word_value bs * 256

abbrev pub word_bytes : ℕ → ℕ → List ℕ
word_bytes zero v = []
word_bytes (suc k) v = v % 256 ∷ word_bytes k (v / 256)

module _ (word_size : ℕ) where
  pub load_word : List ℕ → ℕ → Outcome Unsafe ℕ
  load_word a i =
      if leb (i * word_size + word_size) (length a)
      then ok (word_value (take word_size (drop (i * word_size) a)))
      else err outside

  pub store_word : List ℕ → ℕ → ℕ → Outcome Unsafe (List ℕ)
  store_word a i v =
      if leb (i * word_size + word_size) (length a)
      then ok
          (take (i * word_size) a ++ (word_bytes word_size v ++ drop (i * word_size + word_size) a))
      else err outside

-- `dst[i] = a[i] op b[i]` for `k` indices from `i` on.
pub byte_loop : (ℕ → ℕ → ℕ) → ℕ → ℕ → List ℕ → List ℕ → List ℕ → Outcome Unsafe (List ℕ)
byte_loop op zero i dst a b = ok dst
byte_loop op (suc k) i dst a b = load a i >>= λ x.
    load b i >>= λ y. load dst i >>= λ _. byte_loop op k (i + 1) (set dst i (op x y)) a b

-- `dw[i] = aw[i] op bw[i]` for `k` indices from `i` on.
pub word_loop : (ℕ → ℕ → ℕ) → ℕ → ℕ → ℕ → List ℕ → List ℕ → List ℕ → Outcome Unsafe (List ℕ)
unfolding load_word store_word
word_loop op word_size zero i dst a b = ok dst
word_loop op word_size (suc k) i dst a b = load_word word_size a i >>= λ x.
    load_word word_size b i >>= λ y.
    store_word word_size dst i (op x y) >>= λ dst'. word_loop op word_size k (i + 1) dst' a b

-- The destination and the count of bytes.
pub safe_bytes : (ℕ → ℕ → ℕ) → List ℕ → List ℕ → List ℕ → Outcome Unsafe (List ℕ × ℕ)
unfolding byte_loop
safe_bytes op dst a b =
    let n = if ltb (length b) (length a) then length b else length a in
    byte_loop op n 0 dst a b >>= λ dst'. ok (dst', n)

pub fast_bytes : (ℕ → ℕ → ℕ) → ℕ → List ℕ → List ℕ → List ℕ → Outcome Unsafe (List ℕ × ℕ)
unfolding word_loop byte_loop
fast_bytes op word_size dst a b =
    let n = if ltb (length b) (length a) then length b else length a in
    word_loop op word_size (n / word_size) 0 dst a b >>= λ dst'.
    byte_loop op (n % word_size) (n - n % word_size) dst' a b >>= λ dst''. ok (dst'', n)

abbrev pub safe_xor_bytes : List ℕ → List ℕ → List ℕ → Outcome Unsafe (List ℕ × ℕ)
safe_xor_bytes dst a b = safe_bytes bit_xor dst a b

abbrev pub fast_xor_bytes : ℕ → List ℕ → List ℕ → List ℕ → Outcome Unsafe (List ℕ × ℕ)
fast_xor_bytes word_size dst a b = fast_bytes bit_xor word_size dst a b

pub xor_bytes : Bool → ℕ → List ℕ → List ℕ → List ℕ → Outcome Unsafe (List ℕ × ℕ)
xor_bytes supports_unaligned word_size dst a b =
    if supports_unaligned then fast_xor_bytes word_size dst a b else safe_xor_bytes dst a b

abbrev pub safe_and_bytes : List ℕ → List ℕ → List ℕ → Outcome Unsafe (List ℕ × ℕ)
safe_and_bytes dst a b = safe_bytes bit_and dst a b

abbrev pub fast_and_bytes : ℕ → List ℕ → List ℕ → List ℕ → Outcome Unsafe (List ℕ × ℕ)
fast_and_bytes word_size dst a b = fast_bytes bit_and word_size dst a b

pub and_bytes : Bool → ℕ → List ℕ → List ℕ → List ℕ → Outcome Unsafe (List ℕ × ℕ)
and_bytes supports_unaligned word_size dst a b =
    if supports_unaligned then fast_and_bytes word_size dst a b else safe_and_bytes dst a b

abbrev pub safe_or_bytes : List ℕ → List ℕ → List ℕ → Outcome Unsafe (List ℕ × ℕ)
safe_or_bytes dst a b = safe_bytes bit_or dst a b

abbrev pub fast_or_bytes : ℕ → List ℕ → List ℕ → List ℕ → Outcome Unsafe (List ℕ × ℕ)
fast_or_bytes word_size dst a b = fast_bytes bit_or word_size dst a b

pub or_bytes : Bool → ℕ → List ℕ → List ℕ → List ℕ → Outcome Unsafe (List ℕ × ℕ)
or_bytes supports_unaligned word_size dst a b =
    if supports_unaligned then fast_or_bytes word_size dst a b else safe_or_bytes dst a b

-- Whether one of `k` bytes, or words, from `i` on is not 0.
pub test_byte_loop : ℕ → ℕ → List ℕ → Outcome Unsafe Bool
test_byte_loop zero i p = ok false
test_byte_loop (suc k) i p =
    load p i >>= λ x. elim (x == 0) [ true ↦ test_byte_loop k (i + 1) p | false ↦ ok true ]

pub test_word_loop : ℕ → ℕ → ℕ → List ℕ → Outcome Unsafe Bool
unfolding load_word
test_word_loop word_size zero i p = ok false
test_word_loop word_size (suc k) i p = load_word word_size p i >>= λ x. elim (x == 0) [
  | true ↦ test_word_loop word_size k (i + 1) p
  | false ↦ ok true
]

pub safe_test_bytes : List ℕ → Outcome Unsafe Bool
unfolding test_byte_loop
safe_test_bytes p = test_byte_loop (length p) 0 p

pub fast_test_bytes : ℕ → List ℕ → Outcome Unsafe Bool
unfolding test_word_loop test_byte_loop
fast_test_bytes word_size p =
    let n = length p in
    test_word_loop word_size (n / word_size) 0 p >>= λ found.
    if found then ok true else test_byte_loop (n % word_size) (n - n % word_size) p

pub test_bytes : Bool → ℕ → List ℕ → Outcome Unsafe Bool
unfolding safe_test_bytes fast_test_bytes
test_bytes supports_unaligned word_size p =
    if supports_unaligned then fast_test_bytes word_size p else safe_test_bytes p
