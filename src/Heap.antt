-- ===== src/Heap.antt =====
-- container/heap of the standard library, as prque and mclock use it: the functions over the
-- interface heap.Interface, whose methods end with a value or in a panic.
pub mod Array
pub mod Order
pub mod Up
pub mod Down
pub mod Operations
use go_fiscobcos.Base.{
  ℕ, zero, suc, ◌+◌, ◌-◌, ◌*◌, ◌/◌, ◌<◌, ◌≡◌, Bool, true, false, List, [], ◌∷◌, ◌++◌, length, ltb,
  leb, ◌==◌, if◌then◌else◌, Outcome, ok, err, panic, ◌>>=◌,
}
use go_fiscobcos.Heap.Array.{swapped, key_at}

-- No Go errors: the fuel of a loop, and a size of -1, which Pop of an empty sstack leaves and no
-- state here has.
pub data Limit : Type 0 where
  out_of_fuel : Limit
  below_zero : Limit

-- heap.Interface.
pub record Interface (S A : Type 0) : Type 0 where
  pub len : S → ℕ
  pub less : S → ℕ → ℕ → Outcome Limit Bool
  pub swap : S → ℕ → ℕ → Outcome Limit S
  pub push : S → A → Outcome Limit S
  pub pop : S → Outcome Limit (A × S)

-- What an implementation owes: on its well-formed states it works as on a list, and Less compares
-- keys.
pub record Implements {S A : Type 0} (h : Interface S A) : Type 1 where
  pub IsWellFormed : S → Type 0
  pub IsItem : S → A → Type 0
  pub view : S → List A
  pub key : A → ℕ
  pub len-ok : (s : S) → IsWellFormed s → h.len s ≡ length (view s)
  pub less-ok :
      (s : S) (i j : ℕ)
      → IsWellFormed s
      → i < length (view s)
      → j < length (view s)
      → h.less s i j ≡ ok (ltb (key_at key (view s) i) (key_at key (view s) j))
  pub swap-ok :
      (s : S) (i j : ℕ)
      → IsWellFormed s
      → i < length (view s)
      → j < length (view s)
      → (s' : S) × (h.swap s i j ≡ ok s') × IsWellFormed s' × (view s' ≡ swapped (view s) i j)
  pub push-ok :
      (s : S) (x : A)
      → IsWellFormed s
      → IsItem s x
      → (s' : S) × (h.push s x ≡ ok s') × IsWellFormed s' × (view s' ≡ view s ++ x ∷ [])
  pub pop-ok :
      (s : S) (x : A) (front : List A)
      → IsWellFormed s
      → view s ≡ front ++ x ∷ []
      → (s' : S) × (h.pop s ≡ ok (x, s')) × IsWellFormed s' × (view s' ≡ front)

abbrev pub parent : ℕ → ℕ
parent j = (j - 1) / 2

module _ {S A : Type 0} (h : Interface S A) where
  unfoldable pub up_loop : ℕ → S → ℕ → Outcome Limit S
  up_loop zero s j = err out_of_fuel
  up_loop (suc fuel) s j = elim (parent j == j) [
    | true ↦ ok s
    | false ↦ h.less s j (parent j) >>= λ below. elim below [
      | true ↦ (h.swap s (parent j) j >>= λ s'. up_loop fuel s' (parent j))
      | false ↦ ok s
    ]
  ]

  unfoldable pub up : S → ℕ → Outcome Limit S
  unfolding up_loop
  up s j = up_loop (j + 1) s j

  -- The child of `i` to compare with, of those below `n`.
  pub first_child : S → ℕ → ℕ → Outcome Limit ℕ
  first_child s i n =
      let left = 2 * i + 1 in
      if ltb (left + 1) n
      then (h.less s (left + 1) left >>= λ right. ok (if right then left + 1 else left))
      else ok left

  -- The state, and where the entry that started at `i` came to rest.
  pub down_loop : ℕ → S → ℕ → ℕ → Outcome Limit (S × ℕ)
  unfolding first_child
  down_loop zero s i n = err out_of_fuel
  down_loop (suc fuel) s i n = elim (leb n (2 * i + 1)) [
    | true ↦ ok (s, i)
    | false ↦ first_child s i n >>= λ j. h.less s j i >>= λ below. elim below [
      | true ↦ (h.swap s i j >>= λ s'. down_loop fuel s' j n)
      | false ↦ ok (s, i)
    ]
  ]

  pub down : S → ℕ → ℕ → Outcome Limit (S × Bool)
  unfolding down_loop
  down s i n = down_loop (n + 1) s i n >>= λ (s', rest). ok (s', ltb i rest)

  unfoldable pub heap_push : S → A → Outcome Limit S
  unfolding up
  heap_push s x = h.push s x >>= λ s'. up s' (h.len s' - 1)

  -- Of an empty heap the last index is -1, which Swap rejects in a panic, here and in Remove.
  pub heap_pop : S → Outcome Limit (A × S)
  unfolding down
  heap_pop s =
      let n = h.len s - 1 in
      if h.len s == 0 then panic else (h.swap s 0 n >>= λ s'. down s' 0 n >>= λ (t, moved). h.pop t)

  -- Remove at the last index pops; elsewhere the last entry takes the place.
  pub heap_remove : S → ℕ → Outcome Limit (A × S)
  unfolding up down
  heap_remove s i =
      let n = h.len s - 1 in
      if h.len s == 0
      then panic
      else if n == i
      then h.pop s
      else (h.swap s i n >>= λ s'.
          down s' i n >>= λ (t, moved). (if moved then ok t else up t i) >>= h.pop)

  pub heap_fix : S → ℕ → Outcome Limit S
  unfolding up down
  heap_fix s i = down s i (h.len s) >>= λ (t, moved). if moved then ok t else up t i
