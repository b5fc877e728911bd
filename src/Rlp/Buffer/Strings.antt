-- ===== src/Rlp/Buffer/Strings.antt =====
-- What the string methods of the buffer append.
use go_fiscobcos.Base.{ℕ, ◌≤◌, ◌<◌, ◌≡◌, ap, List, [], ◌∷◌, length, arith, IsU64}
use native.Mathlib.Decide.{dec_lt}
use go_fiscobcos.Rlp.Head.{put_head}
use go_fiscobcos.Rlp.Head.Size.{put_int_lem, put_head_short, put_head_long}
use go_fiscobcos.Rlp.Buffer.{EncBuf, write, encode_string_header, encode_string}

-- The header of a string is the one that puthead writes.
pub encode_string_header_lem :
    (n : ℕ) (w : EncBuf) → IsU64 n → encode_string_header n w ≡ write (put_head 0x80 0xB7 n) w
unfolding encode_string_header
encode_string_header_lem n w u = elim (dec_lt n 56) [
  | yes short ↦ rw (put_head_short 0x80 0xB7 n (omega arith) short) (ground arith)
  | no long ↦
      rw (put_head_long 0x80 0xB7 n (omega arith) (omega arith) u) (ground (arith, put_int_lem n))
]

pub encode_string-one :
    (x : ℕ) (w : EncBuf)
    → (x < 128 → encode_string (x ∷ []) w ≡ write (x ∷ []) w)
      × (128 ≤ x → encode_string (x ∷ []) w ≡ write (x ∷ []) (write (put_head 0x80 0xB7 1) w))
unfolding encode_string
encode_string-one x w =
    (λ h. ground arith, λ h. ground (arith, encode_string_header_lem 1 w (omega arith)))

pub encode_string-other :
    (w : EncBuf)
    → (encode_string [] w ≡ write [] (write (put_head 0x80 0xB7 0) w))
      × ((x y : ℕ) (s : List ℕ)
          → IsU64 (length (x ∷ y ∷ s))
          → encode_string (x ∷ y ∷ s) w
            ≡ write (x ∷ y ∷ s) (write (put_head 0x80 0xB7 (length (x ∷ y ∷ s))) w))
unfolding encode_string
encode_string-other w = (
  ap (write []) (encode_string_header_lem 0 w (omega arith)),
  λ x y s u. ap (write (x ∷ y ∷ s)) (encode_string_header_lem _ w u),
)
