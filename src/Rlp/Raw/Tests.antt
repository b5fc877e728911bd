-- ===== src/Rlp/Raw/Tests.antt =====
-- Runs of the splitting functions, and the theorems at concrete inputs.
use go_fiscobcos.Base.{
  ℕ, ◌≤◌, ◌≡◌, ◌≢◌, ◌⊎◌, refl, List, [], ◌∷◌, ◌++◌, length, arith, ok, err, panic, some,
}
use go_fiscobcos.Rlp.Types.{string, list, Error, canon_size, unexpected_eof, value_too_large}
use go_fiscobcos.Rlp.Head.{put_head, head_size}
use go_fiscobcos.Rlp.Head.Size.{length-put_head}
use go_fiscobcos.Rlp.Raw.{
  or_shifted, size_value, read_size, read_tag, read_kind, split, count_values,
}
use go_fiscobcos.Rlp.Raw.Frame.{frame, IsCanonical}
use go_fiscobcos.Rlp.Raw.Split.{split-frame, split_inv, split-ne-panic}
use go_fiscobcos.Rlp.Raw.Count.{Counted, frames, count_values-frames, count_values_complete}

abbrev cat : List ℕ
cat = 99 ∷ 97 ∷ 116 ∷ []

-- The encodings of "cat" and of the empty list, and a byte.
abbrev cat_and_more : List ℕ
cat_and_more = 0x83 ∷ 99 ∷ 97 ∷ 116 ∷ 0xC0 ∷ 7 ∷ []

split-cat : split cat_and_more ≡ ok (string, cat, 0xC0 ∷ 7 ∷ [])
unfolding split read_kind read_tag
split-cat = refl

split_padded : split (0x81 ∷ 5 ∷ []) ≡ err canon_size
unfolding split read_kind read_tag
split_padded = refl

split_cut : split (0xB8 ∷ []) ≡ err unexpected_eof
unfolding split read_kind read_tag read_size size_value or_shifted
split_cut = refl

split_too_large : split (0x83 ∷ 99 ∷ []) ≡ err value_too_large
unfolding split read_kind read_tag
split_too_large = refl

length-put_head_example :
    (length (put_head 0xC0 0xF7 1024) ≡ head_size 1024)
    × (1 ≤ head_size 1024)
    × (head_size 1024 ≤ 9)
length-put_head_example = length-put_head 0xC0 0xF7 1024 (omega arith)

split-frame_example : split (frame string cat ++ 7 ∷ []) ≡ ok (string, cat, 7 ∷ [])
unfolding put_head
split-frame_example = split-frame string cat (7 ∷ []) (λ x e. cc) (omega arith) (omega arith)

split_inv_example : (cat_and_more ≡ frame string cat ++ 0xC0 ∷ 7 ∷ []) × IsCanonical string cat
split_inv_example =
    split_inv cat_and_more string cat (0xC0 ∷ 7 ∷ []) (omega arith) (omega arith) split-cat

split-ne-panic_example : split (0xBF ∷ 1 ∷ []) ≢ panic
split-ne-panic_example = split-ne-panic (0xBF ∷ 1 ∷ []) (omega arith) (omega arith)

count_values-frames_example : count_values (frames ((string, cat) ∷ (list, []) ∷ [])) ≡ some (ok 2)
unfolding put_head
count_values-frames_example =
    count_values-frames ((string, cat) ∷ (list, []) ∷ [])
      (((λ x e. cc), omega arith), ((tt, omega arith), tt)) (omega arith)

count_values_complete_example :
    ((n : ℕ) × ((count_values cat_and_more ≡ some (ok n)) × Counted cat_and_more 0 n))
    ⊎ ((e : Error) × (count_values cat_and_more ≡ some (err e)))
count_values_complete_example = count_values_complete cat_and_more (omega arith) (omega arith)
