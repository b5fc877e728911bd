-- ===== src/Bitutil/Tests.antt =====
-- Runs of the compression, and the theorems at concrete inputs.
use go_fiscobcos.Base.{
  ℕ, ◌≡◌, ◌≢◌, ◌++◌, arith, refl, ◌^◌, panic, pos, List, [], ◌∷◌, length, ok, err,
}
use go_fiscobcos.Bitutil.{
  missing_data, unreferenced_data, gather, mark, encode_acc, encode_few, bitset_encode_bytes,
  compress_bytes, place, scatter, decode_few, decode_acc, bitset_decode_partial_bytes,
  bitset_decode_bytes, decompress_bytes,
}
use go_fiscobcos.Bitutil.Bits.{IsBitset}
use go_fiscobcos.Bitutil.Gather.{nonzeros}
use go_fiscobcos.Bitutil.Format.{bitset_encode_bytes-nonzeros}
use go_fiscobcos.Bitutil.RoundTrip.{decompress_bytes-compress_bytes}

abbrev sparse : List ℕ
sparse = 0 ∷ 0 ∷ 5 ∷ 0 ∷ 0 ∷ 0 ∷ 0 ∷ 0 ∷ 0 ∷ 9 ∷ 0 ∷ []

compress-sparse : compress_bytes sparse ≡ 0xC0 ∷ 0x20 ∷ 0x40 ∷ 5 ∷ 9 ∷ []
unfolding compress_bytes bitset_encode_bytes encode_acc gather mark encode_few
compress-sparse = refl

decompress-sparse : decompress_bytes (2 ^ 48) (0xC0 ∷ 0x20 ∷ 0x40 ∷ 5 ∷ 9 ∷ []) (pos 11) ≡ ok sparse
unfolding decompress_bytes bitset_decode_bytes bitset_decode_partial_bytes decode_acc scatter place
    decode_few
decompress-sparse = refl

decompress_cut : decompress_bytes (2 ^ 48) (0xC0 ∷ 0x20 ∷ 0x40 ∷ 5 ∷ []) (pos 11) ≡ err missing_data
unfolding decompress_bytes bitset_decode_bytes bitset_decode_partial_bytes decode_acc scatter place
    decode_few
decompress_cut = refl

decompress_long :
    decompress_bytes (2 ^ 48) (0xC0 ∷ 0x20 ∷ 0x40 ∷ 5 ∷ 9 ∷ 1 ∷ []) (pos 11) ≡ err unreferenced_data
unfolding decompress_bytes bitset_decode_bytes bitset_decode_partial_bytes decode_acc scatter place
    decode_few
decompress_long = refl

decompress_bytes-compress_bytes_example :
    decompress_bytes (2 ^ 48) (compress_bytes sparse) (pos 11) ≡ ok sparse
decompress_bytes-compress_bytes_example =
    decompress_bytes-compress_bytes (2 ^ 48) sparse (omega arith)

decompress_huge : decompress_bytes (2 ^ 48) (0x20 ∷ 7 ∷ []) (pos (2 ^ 62)) ≡ panic
unfolding decompress_bytes bitset_decode_bytes bitset_decode_partial_bytes
decompress_huge = refl

sparse_full : nonzeros sparse ≢ []
sparse_full e = cc

bitset_encode_bytes-nonzeros_example :
    (s : List ℕ) × IsBitset s sparse
    × (length s ≡ 2)
    × (bitset_encode_bytes sparse ≡ bitset_encode_bytes s ++ 5 ∷ 9 ∷ [])
bitset_encode_bytes-nonzeros_example = bitset_encode_bytes-nonzeros sparse (omega arith) sparse_full
