-- ===== src/Bitutil/RoundTrip.antt =====
-- common/bitutil/compress.go: decompression gives back what was compressed.
use mathlib.Core.WellFounded.{Acc}
use native.Mathlib.Decide.{dec_lt}
use go_fiscobcos.Base.{
  ℕ, zero, suc, ◌+◌, ◌*◌, ◌/◌, ◌≤◌, ◌<◌, ◌≡◌, ◌≢◌, ◌∙◌, refl, sym, ap, false, List, [], ◌∷◌, ◌++◌,
  length, ◌==◌, replicate, lt_wf, length-append, length-replicate, append_assoc, append-nil, inl,
  inr, ok, arith, pos,
}
use go_fiscobcos.Bitutil.{
  gather, encode_few, encode_acc, bitset_encode_bytes, compress_bytes, decode_few, decode_acc,
  bitset_decode_partial_bytes, bitset_decode_bytes, decompress_bytes,
}
use go_fiscobcos.Bitutil.Bits.{IsBitset, IsBitset-replicate}
use go_fiscobcos.Bitutil.Gather.{nonzeros, ==_false, Gathered-gather}
use go_fiscobcos.Bitutil.Scatter.{Puts-nonzeros}
use go_fiscobcos.Bitutil.Levels.{
  encode_acc-none, encode_acc-some, encode_acc-few, decode_acc-many, decode_acc-nil, decode_acc-few,
}
use go_fiscobcos.Bitutil.Zeros.{IsBitset-nonzeros, nonzeros-nil, nonzeros_cases}

-- What a slice of `n` bytes that are not all 0 is compressed to, and that it is read back in front
-- of anything.
abbrev pub Packed : ℕ → List ℕ → Type 0
Packed n bytes =
    (c : ℕ) × (out : List ℕ) × ((w : Acc ◌<◌ n) → encode_acc n bytes w ≡ c ∷ out)
    × ((rest : List ℕ) (w : Acc ◌<◌ n)
        → decode_acc (c ∷ out ++ rest) n w ≡ ok (bytes, length (c ∷ out)))

-- The bitset of the slice and its bytes that are not 0.
pub gathered :
    (n : ℕ) (bytes : List ℕ)
    → length bytes ≡ n
    → (s : List ℕ) × (gather bytes 0 (replicate ((n + 7) / 8) 0) [] ≡ (s, nonzeros bytes))
      × IsBitset s bytes
      × (length s ≡ (n + 7) / 8)
gathered n bytes count =
    let m : ℕ = (n + 7) / 8 in
    let zeros : List ℕ = replicate m 0 in
    let size : length zeros ≡ m = length-replicate m 0 in
    let (s, out, bits, same) =
      Gathered-gather bytes [] zeros [] (IsBitset-replicate m) (omega (arith, size, count)) in
    (s, out, bits, same ∙ size)

Packed-one :
    (bytes : List ℕ) (b : ℕ) (t : List ℕ) (n : ℕ)
    → n ≤ 1
    → length bytes ≡ n
    → nonzeros bytes ≡ b ∷ t
    → Packed n bytes
unfolding encode_few decode_few
Packed-one [] b t n few count e = cc
Packed-one (c ∷ d ∷ bytes) b t n few count e = absurd (omega arith)
Packed-one (c ∷ []) b t n few count e =
    let full : c ≢ 0 = λ z. ground (arith, e, z) in
    let test : (c == 0) ≡ false = ==_false c full in
    let one : n ≡ 1 = omega (arith, count) in
    (
      c,
      [],
      λ w. encode_acc-few n (c ∷ []) w few ∙ rw test refl,
      λ rest w. decode_acc-few n (c ∷ rest) w few ∙ ap (decode_few (c ∷ rest)) one ∙ rw test refl,
    )

pub some_byte : (s : List ℕ) → nonzeros s ≢ [] → (b : ℕ) × (t : List ℕ) × (nonzeros s ≡ b ∷ t)
some_byte s full = elim (nonzeros_cases s) [ inl e ↦ absurd (full e) | inr found ↦ found ]

Packed-bitset :
    (n : ℕ) (bytes : List ℕ) (b : ℕ) (t s : List ℕ)
    → 1 < n
    → length bytes ≡ n
    → nonzeros bytes ≡ b ∷ t
    → gather bytes 0 (replicate ((n + 7) / 8) 0) [] ≡ (s, nonzeros bytes)
    → IsBitset s bytes
    → length s ≡ (n + 7) / 8
    → Packed ((n + 7) / 8) s
    → Packed n bytes
Packed-bitset n bytes b t s many count e split bits size (c, out, enc, dec) =
    let m : ℕ = (n + 7) / 8 in
    (
      c,
      out ++ b ∷ t,
      λ w.
          encode_acc-some n b bytes s t (c ∷ out) w many (split ∙ ap (λ (l : List ℕ). (s, l)) e)
            enc,
      λ rest w.
          let shape : (out ++ b ∷ t) ++ rest ≡ out ++ (b ∷ t ++ rest) =
            append_assoc out (b ∷ t) rest in
          let level =
            decode_acc-many n (length (c ∷ out)) c ((out ++ b ∷ t) ++ rest) s w many
              (λ w'. ap (λ (l : List ℕ). decode_acc (c ∷ l) m w') shape ∙ dec (b ∷ t ++ rest) w') in
          let put =
            Puts-nonzeros bytes [] (c ∷ out) rest s (8 * length s) bits (omega arith)
              (omega (arith, size, count)) in
          let put' = rw (e, count) at put in
          let size_out : length (c ∷ out) + length (b ∷ t) ≡ length (c ∷ (out ++ b ∷ t)) =
            omega (arith, length-append out (b ∷ t)) in
          level ∙ put' ∙ ap (λ (k : ℕ). ok (bytes, k)) size_out,
    )

pub packed :
    (n b : ℕ) (bytes t : List ℕ)
    → Acc ◌<◌ n
    → length bytes ≡ n
    → nonzeros bytes ≡ b ∷ t
    → Packed n bytes
packed n b bytes t (Acc.intro _ smaller) count e = elim (dec_lt 1 n) [
  | yes many ↦
      let (s, split, bits, size) = gathered n bytes count in
      let (b', t', e') =
        some_byte s (IsBitset-nonzeros s bytes b t bits (omega (arith, size, count)) e) in
      Packed-bitset n bytes b t s many count e split bits size
        (packed ((n + 7) / 8) b' s t' (smaller ((n + 7) / 8) (omega arith)) size e')
  | no few ↦ Packed-one bytes b t n (omega arith) count e
]

-- A slice of zero bytes is compressed to nothing, and nothing is read as zero bytes.
encode_few-zeros : (bytes : List ℕ) → nonzeros bytes ≡ [] → length bytes ≤ 1 → encode_few bytes ≡ []
unfolding encode_few
encode_few-zeros [] e few = refl
encode_few-zeros (c ∷ []) e few = ground (arith, e)
encode_few-zeros (c ∷ d ∷ bytes) e few = absurd (omega arith)

encode-zeros :
    (n : ℕ) (bytes : List ℕ) (w : Acc ◌<◌ n)
    → length bytes ≡ n
    → nonzeros bytes ≡ []
    → encode_acc n bytes w ≡ []
encode-zeros n bytes w count e = elim (dec_lt 1 n) [
  | yes many ↦
      let (s, split, bits, size) = gathered n bytes count in
      encode_acc-none n bytes s w many (split ∙ ap (λ (l : List ℕ). (s, l)) e)
  | no few ↦
      encode_acc-few n bytes w (omega arith) ∙ encode_few-zeros bytes e (omega (arith, count))
]

decode_few-nil : (n : ℕ) → n ≤ 1 → decode_few [] n ≡ ok (replicate n 0, 0)
unfolding decode_few
decode_few-nil zero few = refl
decode_few-nil (suc zero) few = refl
decode_few-nil (suc (suc n)) few = absurd (omega arith)

decode-nil : (n : ℕ) (w : Acc ◌<◌ n) → decode_acc [] n w ≡ ok (replicate n 0, 0)
decode-nil n w = elim (dec_lt 1 n) [
  | yes many ↦ decode_acc-nil n w many
  | no few ↦ decode_acc-few n [] w (omega arith) ∙ decode_few-nil n (omega arith)
]

bitset_decode_bytes-whole :
    (max_alloc n : ℕ) (bytes out : List ℕ)
    → n ≤ max_alloc
    → ((w : Acc ◌<◌ n) → decode_acc out n w ≡ ok (bytes, length out))
    → bitset_decode_bytes max_alloc out n ≡ ok bytes
unfolding bitset_decode_bytes bitset_decode_partial_bytes
bitset_decode_bytes-whole max_alloc n bytes out near dec = ground (arith, near, dec (lt_wf.apply n))

compress_bytes_cases :
    (max_alloc : ℕ) (bytes out : List ℕ)
    → ((w : Acc ◌<◌ (length bytes)) → encode_acc (length bytes) bytes w ≡ out)
    → bitset_decode_bytes max_alloc out (length bytes) ≡ ok bytes
    → decompress_bytes max_alloc (compress_bytes bytes) (pos (length bytes)) ≡ ok bytes
unfolding compress_bytes decompress_bytes bitset_encode_bytes
compress_bytes_cases max_alloc bytes out enc dec =
    ground (arith, enc (lt_wf.apply (length bytes)), dec)

-- Decompressing what CompressBytes returns, with the length of the original as target, gives
-- the original slice, for a slice no longer than make can allocate.
pub decompress_bytes-compress_bytes :
    (max_alloc : ℕ) (bytes : List ℕ)
    → length bytes ≤ max_alloc
    → decompress_bytes max_alloc (compress_bytes bytes) (pos (length bytes)) ≡ ok bytes
decompress_bytes-compress_bytes max_alloc bytes near =
    let n : ℕ = length bytes in
    elim (nonzeros_cases bytes) [
      | inl e ↦
          let zeros : ok (replicate n 0, 0) ≡ ok (bytes, 0) =
            ap (λ (l : List ℕ). ok (l, 0)) (sym (nonzeros-nil bytes e)) in
          compress_bytes_cases max_alloc bytes [] (λ w. encode-zeros n bytes w refl e)
            (bitset_decode_bytes-whole max_alloc n bytes [] near (λ w. decode-nil n w ∙ zeros))
      | inr (b, t, e) ↦
          let (c, out, enc, dec) = packed n b bytes t (lt_wf.apply n) refl e in
          let nothing_more = λ (w : Acc ◌<◌ n).
            ap (λ (l : List ℕ). decode_acc (c ∷ l) n w) (sym (append-nil out)) ∙ dec [] w in
          compress_bytes_cases max_alloc bytes (c ∷ out) enc
            (bitset_decode_bytes-whole max_alloc n bytes (c ∷ out) near nothing_more)
    ]
