-- ===== src/Rlp/Writer/Tests.antt =====
-- Runs of the encoder, and its theorems at concrete inputs.
use go_fiscobcos.Base.{ℕ, ◌≡◌, refl, false, List, [], ◌∷◌, ok, err, arith, pos, negsuc}
use go_fiscobcos.Rlp.Types.{negative_int}
use go_fiscobcos.Rlp.Head.{put_head}
use go_fiscobcos.Rlp.Writer.{Value, Values, nat_bytes, encode_to_bytes}
use go_fiscobcos.Rlp.Writer.Encoding.{encoding, has_negative, IsRanged}
use go_fiscobcos.Rlp.Writer.Correct.{encode_to_bytes-encoding, encode_to_bytes-negative}

-- A struct of a string, a number, a big integer and a list in a list.
abbrev sample : Value
sample = Value.seq (
    Values.cons (Value.text (99 ∷ 97 ∷ 116 ∷ [])) (
      Values.cons (Value.uint 1024) (
        Values.cons (Value.big (pos 300))
          (Values.cons (Value.seq (Values.cons (Value.bool false) Values.nil)) Values.nil))))

abbrev sample_bytes : List ℕ
sample_bytes = 0xCC ∷ 0x83 ∷ 99 ∷ 97 ∷ 116 ∷ 0x82 ∷ 4 ∷ 0 ∷ 0x82 ∷ 1 ∷ 44 ∷ 0xC1 ∷ 0x80 ∷ []

sample-encoding : encoding sample ≡ sample_bytes
unfolding encoding nat_bytes put_head
sample-encoding = refl

abbrev below_zero : Value
below_zero =
    Value.tail_seq (Values.cons (Value.uint 1) (Values.cons (Value.big (negsuc 4)) Values.nil))

encode_to_bytes-encoding_example : encode_to_bytes sample ≡ ok (encoding sample)
unfolding encoding nat_bytes put_head has_negative IsRanged
encode_to_bytes-encoding_example =
    encode_to_bytes-encoding sample refl (tt, (omega arith, (tt, ((tt, tt), tt)))) (omega arith)

encode_to_bytes-negative_example : encode_to_bytes below_zero ≡ err negative_int
unfolding has_negative
encode_to_bytes-negative_example = encode_to_bytes-negative below_zero refl
