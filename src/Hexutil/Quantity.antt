-- ===== src/Hexutil/Quantity.antt =====
-- common/hexutil/hexutil.go: EncodeUint64 and DecodeUint64.
use mathlib.Core.WellFounded.{Acc}
use native.Mathlib.Decide.{dec_lt}
use go_fiscobcos.Base.{
  ℕ, ◌+◌, ◌*◌, ◌/◌, ◌%◌, ◌^◌, ◌<◌, ◌≡◌, ◌∙◌, refl, ap, false, List, [], ◌∷◌, ◌++◌, ok, >>=_inv,
  ok-injective, IsU64, lt_wf, arith,
}
use go_fiscobcos.Hexutil.{
  digit, has_0x_prefix, padded, check_number, parse_uint, decode_uint64, hex_digit, hex_number_acc,
  hex_number, encode_uint64,
}
use go_fiscobcos.Hexutil.Nibbles.{digit-hex_digit, digit_inv}

hex_number_acc-more :
    (n : ℕ) (ds : List ℕ) (w : Acc ◌<◌ n)
    → 0 < n / 16
    → ((w' : Acc ◌<◌ (n / 16)) → hex_number_acc (n / 16) w' ≡ ds)
    → hex_number_acc n w ≡ ds ++ hex_digit (n % 16) ∷ []
unfolding hex_number_acc
hex_number_acc-more n ds (Acc.intro _ smaller) above inner =
    grind (arith, above, λ (p : n / 16 < n). inner (smaller (n / 16) p))

hex_number_acc-last :
    (n : ℕ) (w : Acc ◌<◌ n) → n / 16 ≡ 0 → hex_number_acc n w ≡ hex_digit (n % 16) ∷ []
unfolding hex_number_acc
hex_number_acc-last n (Acc.intro _ smaller) e = grind (arith, e)

parse_uint_step :
    (c d n : ℕ) (t : List ℕ)
    → digit c ≡ ok d
    → n < 2 ^ 60
    → parse_uint n (c ∷ t) ≡ parse_uint (n * 16 + d) t
unfolding parse_uint
parse_uint_step c d n t e room = ground (arith, e)

parse_uint_step_inv :
    (c n v : ℕ) (t : List ℕ)
    → parse_uint n (c ∷ t) ≡ ok v
    → (d : ℕ) × (digit c ≡ ok d) × (n < 2 ^ 60) × (parse_uint (n * 16 + d) t ≡ ok v)
unfolding parse_uint
parse_uint_step_inv c n v t e =
    let (d, more, ec) = >>=_inv (digit c) _ e in
    elim (dec_lt n (2 ^ 60)) [
      | yes room ↦ (d, ec, room, ground (arith, more))
      | no full ↦ ground (arith, more, full)
    ]

-- A digit at the end.
parse_uint-append :
    (ds : List ℕ) (n v d : ℕ)
    → parse_uint n ds ≡ ok v
    → v < 2 ^ 60
    → d < 16
    → parse_uint n (ds ++ hex_digit d ∷ []) ≡ ok (v * 16 + d)
unfolding parse_uint digit
parse_uint-append [] n v d e small h =
    let same : n ≡ v = ok-injective n v e in ground (arith, same, digit-hex_digit d h)
parse_uint-append (c ∷ ds) n v d e small h =
    let (d', ec, room, rest) = parse_uint_step_inv c n v ds e in
    parse_uint_step c d' n (ds ++ hex_digit d ∷ []) ec room
    ∙ parse_uint-append ds (n * 16 + d') v d rest small h

-- The digits of a number: not empty, with a leading zero only for 0, and read back.
abbrev IsNumeral : ℕ → List ℕ → Type 0
IsNumeral n ds =
    (c : ℕ) × (t : List ℕ) × (ds ≡ c ∷ t)
    × (0 < n → 48 < c)
    × (parse_uint 0 ds ≡ ok n)
    × (n < 16 → t ≡ [])

numeral :
    (n : ℕ)
    → Acc ◌<◌ n
    → IsU64 n
    → (ds : List ℕ) × ((w : Acc ◌<◌ n) → hex_number_acc n w ≡ ds) × IsNumeral n ds
unfolding parse_uint
numeral n (Acc.intro _ smaller) u = elim (dec_lt 0 (n / 16)) [
  | yes more ↦
      let (ds, e, (c, t, shape, lead, value, one)) =
        numeral (n / 16) (smaller (n / 16) (omega arith)) (omega arith) in
      (
        ds ++ hex_digit (n % 16) ∷ [],
        λ w. hex_number_acc-more n ds w more e,
        (
          c,
          t ++ hex_digit (n % 16) ∷ [],
          rw shape refl,
          λ h. lead more,
          parse_uint-append ds 0 (n / 16) (n % 16) value (omega arith) (omega arith)
              ∙ ap (λ (x : ℕ). ok x) (omega arith),
          λ h. absurd (omega arith),
        ),
      )
  | no h ↦
      let z : n / 16 ≡ 0 = omega arith in
      (
        hex_digit (n % 16) ∷ [],
        λ w. hex_number_acc-last n w z,
        (
          hex_digit (n % 16),
          [],
          refl,
          λ above. ground arith,
          parse_uint-append [] 0 0 (n % 16) refl (omega arith) (omega arith)
              ∙ ap (λ (x : ℕ). ok x) (omega arith),
          λ h. refl,
        ),
      )
]

decode_uint64-number :
    (c i : ℕ) (t : List ℕ)
    → padded (c ∷ t) ≡ false
    → parse_uint 0 (c ∷ t) ≡ ok i
    → decode_uint64 (48 ∷ 120 ∷ c ∷ t) ≡ ok i
unfolding decode_uint64 check_number has_0x_prefix
decode_uint64-number c i t bare e = rw bare e

padded-lead : (c : ℕ) (t : List ℕ) → 48 < c → padded (c ∷ t) ≡ false
padded-lead c [] h = refl
padded-lead c (d ∷ t) h = ground arith

-- DecodeUint64 of EncodeUint64 of a number below 2 ^ 64 is that number.
pub decode_uint64-encode_uint64 : (i : ℕ) → IsU64 i → decode_uint64 (encode_uint64 i) ≡ ok i
unfolding encode_uint64 hex_number
decode_uint64-encode_uint64 i u =
    let (ds, e, (c, t, shape, lead, value, one)) = numeral i (lt_wf.apply i) u in
    let here : hex_number i ≡ c ∷ t = e (lt_wf.apply i) ∙ shape in
    let parsed : parse_uint 0 (c ∷ t) ≡ ok i = rw shape at value in
    let bare : padded (c ∷ t) ≡ false = elim (dec_lt 0 i) [
      | yes above ↦ padded-lead c t (lead above)
      | no h ↦ rw (one (omega arith)) refl
    ] in
    ap (λ (l : List ℕ). decode_uint64 (48 ∷ 120 ∷ l)) here ∙ decode_uint64-number c i t bare parsed

parse_uint_lt : (ds : List ℕ) (n v : ℕ) → n < 2 ^ 64 → parse_uint n ds ≡ ok v → v < 2 ^ 64
unfolding parse_uint
parse_uint_lt [] n v small e = let same : n ≡ v = ok-injective n v e in omega (arith, same)
parse_uint_lt (c ∷ ds) n v small e =
    let (d, ec, room, rest) = parse_uint_step_inv c n v ds e in
    parse_uint_lt ds (n * 16 + d) v (omega (arith, (digit_inv c d ec).1)) rest

-- What DecodeUint64 returns is below 2 ^ 64.
pub decode_uint64_lt : (s : List ℕ) (v : ℕ) → decode_uint64 s ≡ ok v → v < 2 ^ 64
unfolding decode_uint64
decode_uint64_lt s v e =
    let (raw, parsed, checked) = >>=_inv (check_number s) _ e in
    parse_uint_lt raw 0 v (omega arith) parsed
