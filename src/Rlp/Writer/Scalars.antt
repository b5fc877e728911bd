-- ===== src/Rlp/Writer/Scalars.antt =====
-- The writers of strings and numbers follow the encoding rules.
use mathlib.Core.Path.{subst}
use mathlib.Core.WellFounded.{Acc}
use native.Mathlib.Decide.{dec_lt}
use native.Mathlib.Nat.{pow-suc, one-le-pow}
use go_fiscobcos.Base.{
  ℕ, zero, suc, ◌+◌, ◌/◌, ◌^◌, ◌≤◌, ◌<◌, ◌≡◌, ◌∙◌, refl, sym, ap, Bool, true, false, List, [], ◌∷◌,
  ◌++◌, length, lt→ltb, le→ltb, arith, IsU64, be_bytes, be_value, if◌then◌else◌, lt_wf, append-nil,
  pos, ok,
}
use go_fiscobcos.Rlp.Head.{put_int, put_head}
use go_fiscobcos.Rlp.Head.Size.{put_int_lem, put_int_digits, put_head_short, put_int-byte}
use go_fiscobcos.Rlp.Buffer.{EncBuf, write, encode_string}
use go_fiscobcos.Rlp.Buffer.Strings.{
  encode_string_header_lem, encode_string-one, encode_string-other,
}
use go_fiscobcos.Rlp.Writer.{
  nat_bytes_acc, nat_bytes, write_uint, write_bool, write_string, write_big_int,
}
use go_fiscobcos.Rlp.Writer.Encoding.{string_encoding}
use go_fiscobcos.Rlp.Writer.Steps.{Wrote, Wrote-write, Wrote-trans}

two_writes : (w : EncBuf) (a b : List ℕ) → Wrote w (write b (write a w)) (a ++ b)
two_writes w a b = Wrote-trans (Wrote-write a w) (Wrote-write b (write a w))

pub Wrote-encode_string :
    (b : List ℕ) (w : EncBuf) → IsU64 (length b) → Wrote w (encode_string b w) (string_encoding b)
Wrote-encode_string [] w u = rw (encode_string-other w).0 (
    subst (Wrote w (write [] (write (put_head 0x80 0xB7 0) w))) (append-nil (put_head 0x80 0xB7 0))
      (two_writes w (put_head 0x80 0xB7 0) []))
Wrote-encode_string (x ∷ []) w u = elim (dec_lt x 128) [
  | yes low ↦ rw (lt→ltb x 128 low, (encode_string-one x w).0 low) (Wrote-write (x ∷ []) w)
  | no high ↦
      rw (le→ltb x 128 (omega arith), (encode_string-one x w).1 (omega arith))
        (two_writes w (put_head 0x80 0xB7 1) (x ∷ []))
]
Wrote-encode_string (x ∷ y ∷ s) w u =
    rw ((encode_string-other w).1 x y s u)
      (two_writes w (put_head 0x80 0xB7 (length (x ∷ y ∷ s))) (x ∷ y ∷ s))

-- writeString does what encodeString does.
pub write_string-encode_string :
    (b : List ℕ) (w : EncBuf) → IsU64 (length b) → write_string b w ≡ encode_string b w
unfolding write_string
write_string-encode_string [] w u =
    ap (write []) (encode_string_header_lem 0 w (omega arith)) ∙ sym (encode_string-other w).0
write_string-encode_string (x ∷ []) w u =
    ground (arith, encode_string-one x w, encode_string_header_lem 1 w (omega arith))
write_string-encode_string (x ∷ y ∷ s) w u =
    ap (write (x ∷ y ∷ s)) (encode_string_header_lem _ w u)
    ∙ sym ((encode_string-other w).1 x y s u)

nat_bytes-zero : (n : ℕ) (w : Acc ◌<◌ n) → n ≡ 0 → nat_bytes_acc n w ≡ []
unfolding nat_bytes_acc
nat_bytes-zero n (Acc.intro _ smaller) e = grind arith

nat_bytes_digits :
    (k i : ℕ) (w : Acc ◌<◌ i)
    → 256 ^ k ≤ i
    → i < 256 ^ suc k
    → nat_bytes_acc i w ≡ be_bytes (suc k) i
unfolding nat_bytes_acc
nat_bytes_digits zero i (Acc.intro _ smaller) lo hi =
    let above : 0 < i = omega arith in
    let none_left : i / 256 ≡ 0 = omega arith in
    grind
      (arith, above, λ (p : i / 256 < i). nat_bytes-zero (i / 256) (smaller (i / 256) p) none_left)
nat_bytes_digits (suc k) i (Acc.intro _ smaller) lo hi =
    let lo' : 256 ^ k ≤ i / 256 = omega (arith, pow-suc 256 k) in
    let hi' : i / 256 < 256 ^ suc k = omega (arith, pow-suc 256 (suc k)) in
    let above : 0 < i = omega (arith, one-le-pow (suc k) 256 (omega arith)) in
    grind (
      arith,
      above,
      λ (p : i / 256 < i). nat_bytes_digits k (i / 256) (smaller (i / 256) p) lo' hi',
    )

-- The bytes of a big integer are those that putint writes, where it fits 64 bits and is not 0.
pub nat_bytes-put_int : (i : ℕ) → IsU64 i → 0 < i → nat_bytes i ≡ put_int i
unfolding nat_bytes
nat_bytes-put_int i u above =
    let (k, lo, hi, e) = put_int_digits i u above in
    nat_bytes_digits k i (lt_wf.apply i) lo hi ∙ sym e

pub nat_bytes-nil : nat_bytes 0 ≡ []
unfolding nat_bytes
nat_bytes-nil = nat_bytes-zero 0 (lt_wf.apply 0) refl

-- A string of 1 to 55 bytes that is not a low byte by itself.
string_encoding-short :
    (s : List ℕ)
    → length s < 56
    → ((x : ℕ) → s ≡ x ∷ [] → 128 ≤ x)
    → string_encoding s ≡ (0x80 + length s) ∷ s
string_encoding-short [] short h = put_head_short 0x80 0xB7 0 (omega arith) short
string_encoding-short (x ∷ []) short h =
    rw (le→ltb x 128 (h x refl), put_head_short 0x80 0xB7 1 (omega arith) short)
string_encoding-short (x ∷ y ∷ s) short h =
    rw (put_head_short 0x80 0xB7 (length (x ∷ y ∷ s)) (omega arith) short)

-- The bytes of a number of at least 128, as a string.
pub number_encoding :
    (i : ℕ)
    → IsU64 i
    → 128 ≤ i
    → string_encoding (put_int i) ≡ (0x80 + length (put_int i)) ∷ put_int i
number_encoding i u high =
    let value = (put_int_lem i u).1 in
    string_encoding-short (put_int i) (omega (arith, put_int_lem i u))
      (λ x one. omega (arith, ap (be_value 0) one, value))

write_uint_cases :
    (i : ℕ) (w : EncBuf)
    → IsU64 i
    → (i ≡ 0 → write_uint i w ≡ write (0x80 ∷ []) w)
      × (0 < i → i < 128 → write_uint i w ≡ write (i ∷ []) w)
      × (128 ≤ i → write_uint i w ≡ write ((0x80 + length (put_int i)) ∷ put_int i) w)
unfolding write_uint
write_uint_cases i w u =
    (λ e. ground arith, λ a b. ground arith, λ h. ground (arith, put_int_lem i u))

-- writeUint encodes a number as the string of its shortest big-endian form.
pub Wrote-write_uint :
    (i : ℕ) (w : EncBuf) → IsU64 i → Wrote w (write_uint i w) (string_encoding (nat_bytes i))
Wrote-write_uint i w u =
    let (at_zero, low, high) = write_uint_cases i w u in
    elim (dec_lt i 128) [
      | no big ↦
          rw
            (
              high (omega arith),
              nat_bytes-put_int i u (omega arith),
              number_encoding i u (omega arith),
            )
            (Wrote-write _ w)
      | yes small ↦ elim (dec_lt 0 i) [
        | yes some_bits ↦
            rw
              (
                low some_bits small,
                nat_bytes-put_int i u some_bits,
                put_int-byte i (omega arith),
                lt→ltb i 128 small,
              )
              (Wrote-write _ w)
        | no none_set ↦
            let e : i ≡ 0 = omega arith in
            rw (at_zero e, e, nat_bytes-nil, string_encoding-short [] (omega arith) (λ x one. cc))
              (Wrote-write _ w)
      ]
    ]

pub Wrote-write_bool :
    (b : Bool) (w : EncBuf)
    → Wrote w (write_bool b w) (if b then string_encoding (1 ∷ []) else string_encoding [])
unfolding write_bool
Wrote-write_bool true w = Wrote-write (1 ∷ []) w
Wrote-write_bool false w =
    rw (string_encoding-short [] (omega arith) (λ x one. cc)) (Wrote-write _ w)

-- The single byte that stands for the empty string.
pub Wrote-empty_string : (w : EncBuf) → Wrote w (write (0x80 ∷ []) w) (string_encoding [])
Wrote-empty_string w = rw (string_encoding-short [] (omega arith) (λ x one. cc)) (Wrote-write _ w)

pub Wrote-write_big_int :
    (n : ℕ) (w : EncBuf)
    → IsU64 (length (nat_bytes n))
    → (w' : EncBuf) × (write_big_int (pos n) w ≡ ok w') × Wrote w w' (string_encoding (nat_bytes n))
unfolding write_big_int
Wrote-write_big_int zero w u = (write (0x80 ∷ []) w, refl, rw nat_bytes-nil (Wrote-empty_string w))
Wrote-write_big_int (suc n) w u =
    (encode_string (nat_bytes (suc n)) w, ground arith, Wrote-encode_string (nat_bytes (suc n)) w u)
