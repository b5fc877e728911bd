-- ===== src/Rlp/Head.antt =====
-- rlp/encode.go: the headers of strings and lists. `put_int i` and `put_head …` are the bytes that
-- the Go functions write to the front of their buffer; the number that those return is how many.
pub mod Size
use mathlib.Core.Logic.{dite}
use mathlib.Core.WellFounded.{Acc}
use native.Mathlib.Decide.{dec_lt}
use go_fiscobcos.Base.{
  ℕ, ◌+◌, ◌*◌, ◌/◌, ◌%◌, ◌^◌, ◌<◌, List, [], ◌∷◌, ltb, if◌then◌else◌, length, arith, lt_wf,
}

-- `byte(i >> k)`
abbrev pub byte_at : ℕ → ℕ → ℕ
byte_at i k = i / 2 ^ k % 256

unfoldable pub put_int : ℕ → List ℕ
put_int i =
    if ltb i (2 ^ 8)
    then byte_at i 0 ∷ []
    else if ltb i (2 ^ 16)
    then byte_at i 8 ∷ byte_at i 0 ∷ []
    else if ltb i (2 ^ 24)
    then byte_at i 16 ∷ byte_at i 8 ∷ byte_at i 0 ∷ []
    else if ltb i (2 ^ 32)
    then byte_at i 24 ∷ byte_at i 16 ∷ byte_at i 8 ∷ byte_at i 0 ∷ []
    else if ltb i (2 ^ 40)
    then byte_at i 32 ∷ byte_at i 24 ∷ byte_at i 16 ∷ byte_at i 8 ∷ byte_at i 0 ∷ []
    else if ltb i (2 ^ 48)
    then byte_at i 40 ∷ byte_at i 32 ∷ byte_at i 24 ∷ byte_at i 16 ∷ byte_at i 8 ∷ byte_at i 0 ∷ []
    else if ltb i (2 ^ 56)
    then byte_at i 48
      ∷ byte_at i 40
      ∷ byte_at i 32
      ∷ byte_at i 24
      ∷ byte_at i 16
      ∷ byte_at i 8
      ∷ byte_at i 0
      ∷ []
    else byte_at i 56
      ∷ byte_at i 48
      ∷ byte_at i 40
      ∷ byte_at i 32
      ∷ byte_at i 24
      ∷ byte_at i 16
      ∷ byte_at i 8
      ∷ byte_at i 0
      ∷ []

shift_shrinks : (i : ℕ) → 0 < i / 256 → i / 256 < i
shift_shrinks i h = omega arith

-- The loop of intsize: `i >>= 8`, and on while that is not 0.
int_size_loop : ℕ → (i : ℕ) → Acc ◌<◌ i → ℕ
int_size_loop size i (Acc.intro _ smaller) =
    dite (dec_lt 0 (i / 256))
      (λ more. int_size_loop (size + 1) (i / 256) (smaller _ (shift_shrinks i more))) (λ _. size)

pub int_size : ℕ → ℕ
unfolding int_size_loop lt_wf dec_lt
int_size i = int_size_loop 1 i (lt_wf.apply i)

pub head_size : ℕ → ℕ
head_size size = if ltb size 56 then 1 else 1 + int_size size

unfoldable pub put_head : ℕ → ℕ → ℕ → List ℕ
unfolding put_int
put_head small large size =
    if ltb size 56
    then (small + size % 256) % 256 ∷ []
    else (large + length (put_int size) % 256) % 256 ∷ put_int size
