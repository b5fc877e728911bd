-- ===== src/Common.antt =====
-- common/bytes.go, and of common/types.go the making of hashes and addresses. A string is the list of
-- its bytes. Lengths and pads that are negative are not modelled.
pub mod Hex
pub mod Fixed
mod Tests
use go_fiscobcos.Base.{
  ℕ, ◌+◌, ◌-◌, ◌*◌, ◌%◌, Bool, true, false, ◌&&◌, ◌||◌, List, [], ◌∷◌, ◌++◌, length, map, take,
  drop, replicate, leb, ltb, ◌==◌, if◌then◌else◌, Outcome, ok, err, panic,
}
use go_fiscobcos.Hexutil.{digit, hex_encode}

-- hex.EncodeToString.
abbrev pub bytes_to_hex : List ℕ → List ℕ
bytes_to_hex d = hex_encode d

-- hex.DecodeString, of which the error is dropped: the bytes in front of the first bad digit, or of
-- an odd digit at the end.
pub hex_to_bytes : List ℕ → List ℕ
unfolding digit
hex_to_bytes [] = []
hex_to_bytes (x ∷ []) = []
hex_to_bytes (x ∷ y ∷ t) =
    let rest = hex_to_bytes t in
    elim (digit x) [
      | ok a ↦ elim (digit y) [ ok b ↦ (a * 16 + b) ∷ rest | err e ↦ [] | panic ↦ [] ]
      | err e ↦ []
      | panic ↦ []
    ]

pub to_hex : List ℕ → List ℕ
to_hex b = let hex = bytes_to_hex b in 48 ∷ 120 ∷ (if length hex == 0 then 48 ∷ [] else hex)

abbrev pub to_hex_array : List (List ℕ) → List (List ℕ)
to_hex_array b = map to_hex b

abbrev pub is_prefixed : List ℕ → Bool
is_prefixed (a ∷ b ∷ t) = (a == 48) && ((b == 120) || (b == 88))
is_prefixed _ = false

abbrev pub without_prefix : List ℕ → List ℕ
without_prefix s = if is_prefixed s then drop 2 s else s

pub from_hex : List ℕ → List ℕ
unfolding hex_to_bytes
from_hex s = let t = without_prefix s in hex_to_bytes (if length t % 2 == 1 then 48 ∷ t else t)

abbrev pub is_hex_character : ℕ → Bool
is_hex_character c = (leb 48 c && leb c 57) || ((leb 97 c && leb c 102) || (leb 65 c && leb c 70))

abbrev pub all_hex : List ℕ → Bool
all_hex [] = true
all_hex (c ∷ s) = if is_hex_character c then all_hex s else false

abbrev pub is_hex : List ℕ → Bool
is_hex s = if length s % 2 == 0 then all_hex s else false

pub hex_to_bytes_fixed : List ℕ → ℕ → List ℕ
unfolding hex_to_bytes
hex_to_bytes_fixed s flen =
    let h = hex_to_bytes s in
    if length h == flen
    then h
    else if ltb flen (length h)
    then drop (length h - flen) h
    else replicate (flen - length h) 0 ++ h

pub right_pad_bytes : List ℕ → ℕ → List ℕ
right_pad_bytes slice l =
    if leb l (length slice) then slice else slice ++ replicate (l - length slice) 0

pub left_pad_bytes : List ℕ → ℕ → List ℕ
left_pad_bytes slice l =
    if leb l (length slice) then slice else replicate (l - length slice) 0 ++ slice

pub trim_left_zeroes : List ℕ → List ℕ
trim_left_zeroes [] = []
trim_left_zeroes (x ∷ s) = let rest = trim_left_zeroes s in if x == 0 then rest else x ∷ s

-- The last byte is dropped as long as it is 0.
pub trim_right_zeroes : List ℕ → List ℕ
trim_right_zeroes [] = []
trim_right_zeroes (x ∷ s) = elim (trim_right_zeroes s) [
  | [] ↦ if x == 0 then [] else x ∷ []
  | y ∷ t ↦ x ∷ y ∷ t
]

abbrev pub hash_length : ℕ
hash_length = 32

abbrev pub address_length : ℕ
address_length = 20

-- SetBytes of an array of `n` bytes that holds `h`.
pub set_bytes : ℕ → List ℕ → List ℕ → List ℕ
set_bytes n h b =
    let c = if ltb (length h) (length b) then drop (length b - n) b else b in
    take (n - length c) h ++ c

pub bytes_to_hash : List ℕ → List ℕ
unfolding set_bytes
bytes_to_hash b = set_bytes hash_length (replicate hash_length 0) b

pub hex_to_hash : List ℕ → List ℕ
unfolding bytes_to_hash from_hex
hex_to_hash s = bytes_to_hash (from_hex s)

pub bytes_to_address : List ℕ → List ℕ
unfolding set_bytes
bytes_to_address b = set_bytes address_length (replicate address_length 0) b

pub hex_to_address : List ℕ → List ℕ
unfolding bytes_to_address from_hex
hex_to_address s = bytes_to_address (from_hex s)

abbrev pub address_hash : List ℕ → List ℕ
address_hash a = bytes_to_hash a

abbrev pub is_hex_address : List ℕ → Bool
is_hex_address s = let t = without_prefix s in (length t == 2 * address_length) && is_hex t
