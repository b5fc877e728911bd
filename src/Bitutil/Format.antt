-- ===== src/Bitutil/Format.antt =====
-- common/bitutil/compress.go: the format that its comment describes.
use mathlib.Core.WellFounded.{Acc}
use mathlib.Core.Path.{subst}
use go_fiscobcos.Base.{
  ℕ, ◌+◌, ◌/◌, ◌<◌, ◌≡◌, ◌≢◌, ◌∙◌, refl, ap, List, [], ◌∷◌, ◌++◌, length, lt_wf, arith,
}
use go_fiscobcos.Bitutil.{encode_acc, bitset_encode_bytes}
use go_fiscobcos.Bitutil.Bits.{IsBitset}
use go_fiscobcos.Bitutil.Gather.{nonzeros}
use go_fiscobcos.Bitutil.Levels.{encode_acc-some}
use go_fiscobcos.Bitutil.Zeros.{IsBitset-nonzeros}
use go_fiscobcos.Bitutil.RoundTrip.{gathered, packed, some_byte}

-- A slice of at least two bytes that are not all 0 is encoded as the encoding of a bitset of an
-- eighth of its length, rounded up, followed by its bytes that are not 0; bit 7 - i % 8 of byte
-- i / 8 of the bitset tells, for every i below its number of bits, whether the slice has a byte
-- at i that is not 0.
pub bitset_encode_bytes-nonzeros :
    (bytes : List ℕ)
    → 1 < length bytes
    → nonzeros bytes ≢ []
    → (s : List ℕ) × IsBitset s bytes
      × (length s ≡ (length bytes + 7) / 8)
      × (bitset_encode_bytes bytes ≡ bitset_encode_bytes s ++ nonzeros bytes)
unfolding bitset_encode_bytes
bitset_encode_bytes-nonzeros bytes many full =
    let n : ℕ = length bytes in
    let (b, t, e) = some_byte bytes full in
    let (s, split, bits, size) = gathered n bytes refl in
    let (b', t', e') = some_byte s (IsBitset-nonzeros s bytes b t bits (omega (arith, size)) e) in
    let (c, out, enc, dec) = packed (length s) b' s t' (lt_wf.apply (length s)) refl e' in
    let enc' = subst (λ (m : ℕ). (w : Acc ◌<◌ m) → encode_acc m s w ≡ c ∷ out) size enc in
    let whole : bitset_encode_bytes bytes ≡ (c ∷ out) ++ b ∷ t =
      encode_acc-some n b bytes s t (c ∷ out) (lt_wf.apply n) many
        (split ∙ ap (λ (l : List ℕ). (s, l)) e) enc' in
    let inner : bitset_encode_bytes s ≡ c ∷ out = enc (lt_wf.apply (length s)) in
    (s, bits, size, rw (e, inner) whole)
