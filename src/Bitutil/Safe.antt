-- ===== src/Bitutil/Safe.antt =====
-- common/bitutil/compress.go: decompression of any input.
use go_fiscobcos.Base.{ℕ, ◌<◌, ◌≡◌, List, length, ℤ, pos, negsuc, Outcome, ok, err, panic}
use go_fiscobcos.Bitutil.{Error}

-- The call ends with an error or a value as stated.
abbrev Settles {ℓ} : {A : Type ℓ} → (A → Type 0) → Outcome Error A → Type 0
Settles P (ok a) = P a
Settles P (err e) = Unit {0}
Settles P panic = ⊥

-- The output has the length of the target.
abbrev pub HasTarget : ℕ → List ℕ × ℕ → Type 0
HasTarget n r = length r.0 ≡ n

-- How DecompressBytes ends: with a slice as long as the target, with an error, or in a panic, which
-- happens only to a target that is longer than the input and cannot be allocated.
abbrev pub Ends : ℕ → List ℕ → ℤ → Outcome Error (List ℕ) → Type 0
Ends max_alloc bytes target (ok out) = pos (length out) ≡ target
Ends max_alloc bytes target (err e) = Unit {0}
Ends max_alloc bytes (negsuc n) panic = ⊥
Ends max_alloc bytes (pos n) panic = (max_alloc < n) × (length bytes < n)
