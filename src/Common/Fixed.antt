-- ===== src/Common/Fixed.antt =====
-- Hashes and addresses have their lengths, and keep what has the right length already.
use go_fiscobcos.Base.{
  ℕ, ◌-◌, ◌≤◌, ◌<◌, ◌≡◌, ◌∙◌, ap, List, [], ◌∷◌, ◌++◌, length, take, drop, replicate, ltb, ◌==◌,
  Bool, true, false, if◌then◌else◌, length-append, length-take, length-drop, length-replicate, All,
  IsByte, arith,
}
use native.Mathlib.Decide.{dec_lt}
use go_fiscobcos.Common.{set_bytes, bytes_to_hash, hash_length, hex_to_hash, to_hex, from_hex}
use go_fiscobcos.Common.Hex.{from_hex-to_hex}

set_bytes_long :
    (n : ℕ) (h b : List ℕ)
    → length h ≡ n
    → n < length b
    → set_bytes n h b ≡ take (n - length (drop (length b - n) b)) h ++ drop (length b - n) b
unfolding set_bytes
set_bytes_long n h b e long =
    let test : ltb (length h) (length b) ≡ true = ground (arith, e, long) in
    ap (λ (t : Bool). let c = if t then drop (length b - n) b else b in take (n - length c) h ++ c)
      test

set_bytes_short :
    (n : ℕ) (h b : List ℕ)
    → length h ≡ n
    → length b ≤ n
    → set_bytes n h b ≡ take (n - length b) h ++ b
unfolding set_bytes
set_bytes_short n h b e short =
    let test : ltb (length h) (length b) ≡ false = ground (arith, e, short) in
    ap (λ (t : Bool). let c = if t then drop (length b - n) b else b in take (n - length c) h ++ c)
      test

pub length-set_bytes : (n : ℕ) (h b : List ℕ) → length h ≡ n → length (set_bytes n h b) ≡ n
length-set_bytes n h b e = elim (dec_lt n (length b)) [
  | yes long ↦
      let c : List ℕ = drop (length b - n) b in
      ap length (set_bytes_long n h b e long)
      ∙ omega (
        arith,
        e,
        long,
        length-append (take (n - length c) h) c,
        length-take (n - length c) h,
        length-drop (length b - n) b,
      )
  | no short ↦
      ap length (set_bytes_short n h b e (omega (arith, short)))
      ∙ omega
          (arith, e, short, length-append (take (n - length b) h) b, length-take (n - length b) h)
]

pub set_bytes_same : (n : ℕ) (h b : List ℕ) → length h ≡ n → length b ≡ n → set_bytes n h b ≡ b
set_bytes_same n h b e e' =
    let none : n - length b ≡ 0 = omega (arith, e') in
    set_bytes_short n h b e (omega (arith, e')) ∙ ap (λ (k : ℕ). take k h ++ b) none

-- HexToHash reads the hash that ToHex writes.
pub hex_to_hash-to_hex :
    (h : List ℕ) → All IsByte h → length h ≡ hash_length → hex_to_hash (to_hex h) ≡ h
unfolding hex_to_hash bytes_to_hash
hex_to_hash-to_hex h bytes size =
    let more : (length h == 0) ≡ false = ground (arith, size) in
    let back : from_hex (to_hex h) ≡ h =
      from_hex-to_hex h bytes ∙ ap (λ (empty : Bool). if empty then 0 ∷ [] else h) more in
    ap bytes_to_hash back
    ∙ set_bytes_same hash_length (replicate hash_length 0) h
        (length-replicate {A = ℕ} hash_length 0) size
