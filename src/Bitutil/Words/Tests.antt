-- ===== src/Bitutil/Words/Tests.antt =====
-- Witnesses: a word of four bytes and a rest.
use go_fiscobcos.Base.{ℕ, ◌≡◌, bit_and, bit_or, bit_xor, true, List, [], ◌∷◌, ok, arith}
use go_fiscobcos.Bitutil.Words.{xor_bytes, and_bytes, or_bytes, test_bytes}
use go_fiscobcos.Bitutil.Words.Same.{combined, bytes_lem}
use go_fiscobcos.Bitutil.Words.Zero.{any_set, test_bytes_lem}

abbrev first : List ℕ
first = 1 ∷ 2 ∷ 3 ∷ 255 ∷ 5 ∷ []

abbrev second : List ℕ
second = 255 ∷ 254 ∷ 3 ∷ 15 ∷ 6 ∷ 9 ∷ []

abbrev target : List ℕ
target = 7 ∷ 7 ∷ 7 ∷ 7 ∷ 7 ∷ 7 ∷ []

bytes_lem_example :
    (xor_bytes true 4 target first second ≡ combined bit_xor target first second)
    × (and_bytes true 4 target first second ≡ combined bit_and target first second)
    × (or_bytes true 4 target first second ≡ combined bit_or target first second)
bytes_lem_example =
    bytes_lem true 4 target first second (omega arith)
      (omega arith, (omega arith, (omega arith, (omega arith, (omega arith, tt)))))
      (omega arith, (omega arith, (omega arith, (omega arith, (omega arith, (omega arith, tt))))))

test_bytes_lem_example : test_bytes true 4 first ≡ ok (any_set first)
test_bytes_lem_example = test_bytes_lem true 4 first
