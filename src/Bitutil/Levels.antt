-- ===== src/Bitutil/Levels.antt =====
-- common/bitutil/compress.go: one level of the two recursions.
use mathlib.Core.WellFounded.{Acc}
use go_fiscobcos.Base.{
  ℕ, ◌+◌, ◌*◌, ◌/◌, ◌≤◌, ◌<◌, ◌≡◌, List, [], ◌∷◌, ◌++◌, length, replicate, ok, arith,
}
use go_fiscobcos.Bitutil.{gather, encode_few, encode_acc, scatter, decode_few, decode_acc}

-- One level of the compression.
pub encode_acc-none :
    (n : ℕ) (bytes s : List ℕ) (w : Acc ◌<◌ n)
    → 1 < n
    → gather bytes 0 (replicate ((n + 7) / 8) 0) [] ≡ (s, [])
    → encode_acc n bytes w ≡ []
unfolding encode_acc
encode_acc-none n bytes s (Acc.intro _ smaller) many e = grind (arith, many, e)

pub encode_acc-some :
    (n b : ℕ) (bytes s t out : List ℕ) (w : Acc ◌<◌ n)
    → 1 < n
    → gather bytes 0 (replicate ((n + 7) / 8) 0) [] ≡ (s, b ∷ t)
    → ((w' : Acc ◌<◌ ((n + 7) / 8)) → encode_acc ((n + 7) / 8) s w' ≡ out)
    → encode_acc n bytes w ≡ out ++ b ∷ t
unfolding encode_acc
encode_acc-some n b bytes s t out (Acc.intro _ smaller) many e inner =
    grind (arith, many, e, λ (p : (n + 7) / 8 < n). inner (smaller ((n + 7) / 8) p))

pub encode_acc-few :
    (n : ℕ) (bytes : List ℕ) (w : Acc ◌<◌ n) → n ≤ 1 → encode_acc n bytes w ≡ encode_few bytes
unfolding encode_acc
encode_acc-few n bytes (Acc.intro _ smaller) few = grind (arith, few)

-- One level of the decompression.
pub decode_acc-many :
    (n ptr c : ℕ) (bytes s : List ℕ) (w : Acc ◌<◌ n)
    → 1 < n
    → ((w' : Acc ◌<◌ ((n + 7) / 8)) → decode_acc (c ∷ bytes) ((n + 7) / 8) w' ≡ ok (s, ptr))
    → decode_acc (c ∷ bytes) n w ≡ scatter (8 * length s) 0 s (c ∷ bytes) ptr (replicate n 0)
unfolding decode_acc
decode_acc-many n ptr c bytes s (Acc.intro _ smaller) many inner =
    grind (arith, many, λ (p : (n + 7) / 8 < n). inner (smaller ((n + 7) / 8) p))

pub decode_acc-nil : (n : ℕ) (w : Acc ◌<◌ n) → 1 < n → decode_acc [] n w ≡ ok (replicate n 0, 0)
unfolding decode_acc
decode_acc-nil n (Acc.intro _ smaller) many = grind (arith, many)

pub decode_acc-few :
    (n : ℕ) (bytes : List ℕ) (w : Acc ◌<◌ n) → n ≤ 1 → decode_acc bytes n w ≡ decode_few bytes n
unfolding decode_acc
decode_acc-few n bytes (Acc.intro _ smaller) few = grind (arith, few)
