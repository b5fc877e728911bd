-- ===== src/Math/Bytes.antt =====
-- common/math/big.go: single bytes of a number.
use native.Mathlib.Decide.{dec_lt}
use go_fiscobcos.Base.{
  ℕ, zero, suc, ◌+◌, ◌-◌, ◌*◌, ◌/◌, ◌%◌, ◌^◌, ◌≤◌, ◌<◌, ◌≡◌, ◌∙◌, refl, sym, ap, List, [], ◌∷◌,
  ◌++◌, length, All, IsU64, get_elem?, none, some, be_bytes, length-be_bytes, lt_wf, arith,
}
use go_fiscobcos.Math.{byte_of_words, big_endian_byte_at, byte, words}
use go_fiscobcos.Math.Exp.{word_value, words_lem}

-- Digit `n` of a number, base 256, from the low end.
abbrev pub digit_at : ℕ → ℕ → ℕ
digit_at x zero = x % 256
digit_at x (suc n) = digit_at (x / 256) n

-- A word has eight digits, and the next ones are those of the words above it.
digit_in_word : (w v n : ℕ) → n < 8 → digit_at (w + 2 ^ 64 * v) n ≡ w / 2 ^ (8 * n) % 256
digit_in_word w v zero h = omega arith
digit_in_word w v (suc zero) h = omega arith
digit_in_word w v (suc (suc zero)) h = omega arith
digit_in_word w v (suc (suc (suc zero))) h = omega arith
digit_in_word w v (suc (suc (suc (suc zero)))) h = omega arith
digit_in_word w v (suc (suc (suc (suc (suc zero))))) h = omega arith
digit_in_word w v (suc (suc (suc (suc (suc (suc zero)))))) h = omega arith
digit_in_word w v (suc (suc (suc (suc (suc (suc (suc zero))))))) h = omega arith
digit_in_word w v (suc (suc (suc (suc (suc (suc (suc (suc n)))))))) h = absurd (omega arith)

digit_above :
    (w v n : ℕ)
    → IsU64 w
    → digit_at (w + 2 ^ 64 * v) (suc (suc (suc (suc (suc (suc (suc (suc n)))))))) ≡ digit_at v n
digit_above w v n u = ap (λ (x : ℕ). digit_at x n) (omega arith)

digit_at-zero : (n : ℕ) → digit_at 0 n ≡ 0
digit_at-zero zero = refl
digit_at-zero (suc n) = digit_at-zero n

-- The word and the byte in it that `n` means.
byte_at :
    (ws : List ℕ) (n q r : ℕ)
    → n / 8 ≡ q
    → n % 8 ≡ r
    → byte_of_words ws n ≡ elim (get_elem? ws q) [ none ↦ 0 | some w ↦ w / 2 ^ (8 * r) % 256 ]
unfolding byte_of_words
byte_at ws n q r eq er =
    ap (λ (k : ℕ). elim (get_elem? ws k) [ none ↦ 0 | some w ↦ w / 2 ^ (8 * (n % 8)) % 256 ]) eq
    ∙ ap (λ (k : ℕ). elim (get_elem? ws q) [ none ↦ 0 | some w ↦ w / 2 ^ (8 * k) % 256 ]) er

byte_of_words-digit_at :
    (ws : List ℕ) (n : ℕ) → All IsU64 ws → byte_of_words ws n ≡ digit_at (word_value ws) n
unfolding byte_of_words
byte_of_words-digit_at [] n h = sym (digit_at-zero n)
byte_of_words-digit_at (w ∷ ws) n (u, h) = elim (dec_lt n 8) [
  | yes low ↦
      byte_at (w ∷ ws) n 0 n (omega arith) (omega arith)
      ∙ sym (digit_in_word w (word_value ws) n low)
  | no high ↦
      let m : ℕ = n - 8 in
      let shape : (suc (suc (suc (suc (suc (suc (suc (suc m)))))))) ≡ n = omega arith in
      byte_at (w ∷ ws) n (suc (m / 8)) (m % 8) (omega arith) (omega arith)
      ∙ byte_of_words-digit_at ws m h
      ∙ sym (digit_above w (word_value ws) m u)
      ∙ ap (digit_at (word_value (w ∷ ws))) shape
]

-- The bytes of a number in big-endian order, one at a time.
get_elem?-append_left :
    (xs ys : List ℕ) (n : ℕ) → n < length xs → get_elem? (xs ++ ys) n ≡ get_elem? xs n
get_elem?-append_left [] ys n h = absurd (omega arith)
get_elem?-append_left (x ∷ xs) ys zero h = refl
get_elem?-append_left (x ∷ xs) ys (suc n) h = get_elem?-append_left xs ys n (omega arith)

get_elem?-append_last :
    (xs : List ℕ) (y n : ℕ) → n ≡ length xs → get_elem? (xs ++ y ∷ []) n ≡ some y
get_elem?-append_last [] y n e = rw e refl
get_elem?-append_last (x ∷ xs) y n e = rw e (get_elem?-append_last xs y (length xs) refl)

get_elem?-be_bytes :
    (k x n : ℕ) → n < k → get_elem? (be_bytes k x) n ≡ some (digit_at x (k - 1 - n))
get_elem?-be_bytes zero x n h = absurd (omega arith)
get_elem?-be_bytes (suc k) x n h =
    let front : List ℕ = be_bytes k (x / 256) in
    let size = length-be_bytes k (x / 256) in
    elim (dec_lt n k) [
      | yes before ↦
          let index : suc (k - 1 - n) ≡ suc k - 1 - n = omega arith in
          get_elem?-append_left front ((x % 256) ∷ []) n (omega (arith, size))
          ∙ get_elem?-be_bytes k (x / 256) n before
          ∙ ap (λ (j : ℕ). some (digit_at x j)) index
      | no last ↦
          let index : 0 ≡ suc k - 1 - n = omega arith in
          get_elem?-append_last front (x % 256) n (omega (arith, size))
          ∙ ap (λ (j : ℕ). some (digit_at x j)) index
    ]

-- For a number that is not negative, Byte at an index below the padded length is the byte at
-- that index of the big-endian form of the number in so many bytes, which drops higher ones,
-- and 0 at any other index.
pub byte-be_bytes :
    (bigint padlength n : ℕ)
    → (n < padlength → get_elem? (be_bytes padlength bigint) n ≡ some (byte bigint padlength n))
      × (padlength ≤ n → byte bigint padlength n ≡ 0)
unfolding byte big_endian_byte_at words
byte-be_bytes bigint padlength n = (inside, λ past. ground arith)
  where
    digits : (j : ℕ) → big_endian_byte_at bigint j ≡ digit_at bigint j
    digits j =
        let (ws, e, value, u) = words_lem bigint (lt_wf.apply bigint) in
        ap (λ (l : List ℕ). byte_of_words l j) (e (lt_wf.apply bigint))
        ∙ byte_of_words-digit_at ws j u
        ∙ ap (λ (x : ℕ). digit_at x j) value

    inside :
        n < padlength → get_elem? (be_bytes padlength bigint) n ≡ some (byte bigint padlength n)
    inside h =
        let here : byte bigint padlength n ≡ big_endian_byte_at bigint (padlength - 1 - n) =
          ground arith in
        get_elem?-be_bytes padlength bigint n h
        ∙ ap (λ (d : ℕ). some d) (sym (here ∙ digits (padlength - 1 - n)))
