-- ===== src/Base/Calls.antt =====
-- How a Go call ends: with a value, with a returned error, or in a run-time panic.
use Prim.Native.Nat.{ℕ}
use mathlib.Core.Path.{◌≡◌, refl, ap, ◌∙◌}
use mathlib.Core.Logic.{◌⊎◌, inl, inr}
use mathlib.Core.Option.{Option, none, some}
use mathlib.Core.List.{List}
use go_fiscobcos.Base.Tests.{leb, if◌then◌else◌}
use go_fiscobcos.Base.Lists.{length, get_elem?, take, drop}

pub data Outcome {ℓ} (E : Type 0) (A : Type ℓ) : Type ℓ where
  ok : A → Outcome E A
  err : E → Outcome E A
  panic : Outcome E A

infixl 5 ◌>>=◌ ◌>>◌
abbrev pub ◌>>=◌ {ℓ κ} :
    {E : Type 0} {A : Type ℓ} {B : Type κ} → Outcome E A → (A → Outcome E B) → Outcome E B
ok a >>= f = f a
err e >>= f = err e
panic >>= f = panic

abbrev pub ◌>>◌ {ℓ κ} :
    {E : Type 0} {A : Type ℓ} {B : Type κ} → Outcome E A → Outcome E B → Outcome E B
m >> k = m >>= λ _. k

-- A panic where the option is empty, as for an index out of range.
abbrev pub or_panic {ℓ} : {E : Type 0} {A : Type ℓ} → Option A → Outcome E A
or_panic (some a) = ok a
or_panic none = panic

module _ {ℓ} {E : Type 0} {A : Type ℓ} where
  -- `a[i]`
  abbrev pub load : List A → ℕ → Outcome E A
  load a i = or_panic (get_elem? a i)

  -- `a[i:]` and `a[:i]`, which panic past the end of the slice.
  abbrev pub slice_from : List A → ℕ → Outcome E (List A)
  slice_from a i = if leb i (length a) then ok (drop i a) else panic

  abbrev pub slice_to : List A → ℕ → Outcome E (List A)
  slice_to a i = if leb i (length a) then ok (take i a) else panic

  -- A bind that returns a value: what its first part returned, and what became of that.
  pub >>=_inv {κ} :
      {B : Type κ} (r : Outcome E A) (next : A → Outcome E B) {out : B}
      → (r >>= next) ≡ ok out
      → (v : A) × (next v ≡ ok out) × (r ≡ ok v)
  >>=_inv (ok v) next done = (v, done, refl)
  >>=_inv (err e) next done = cc
  >>=_inv panic next done = cc

  -- A bind whose first part returns a value goes on with it.
  pub >>=-ok {κ} :
      {B : Type κ} {m : Outcome E A} {v : A} {r : Outcome E B} (next : A → Outcome E B)
      → m ≡ ok v
      → next v ≡ r
      → (m >>= next) ≡ r
  >>=-ok next e e' = ap (λ (t : Outcome E A). t >>= next) e ∙ e'

  pub Outcome-cases :
      (m : Outcome E A) → ((a : A) × (m ≡ ok a)) ⊎ (((e : E) × (m ≡ err e)) ⊎ (m ≡ panic))
  Outcome-cases (ok a) = inl (a, refl)
  Outcome-cases (err e) = inr (inl (e, refl))
  Outcome-cases panic = inr (inr refl)

  pub ok-injective : (a b : A) → ◌≡◌ {A = Outcome E A} (ok a) (ok b) → a ≡ b
  ok-injective a b h = cc
