-- ===== src/Mclock.antt =====
-- common/mclock/simclock.go: the simulated clock with its heap of timers. A method runs under the
-- clock's lock, so that it is one step of the state. A timer is its index in the store `timers`, since
-- the caller and the heap share it. An AbsTime or a Duration is taken in two's complement, as a
-- number below 2^64, and an index of -1 is `none`.

pub mod Timers
pub mod Sortable
pub mod Clock
pub mod Stop
pub mod Schedule
pub mod Reset
pub mod Reachable
mod Tests
use go_fiscobcos.Base.{
  ℕ, zero, suc, ◌+◌, ◌-◌, ◌*◌, ◌%◌, ◌^◌, Bool, true, false, List, [], ◌∷◌, ◌++◌, length, get_elem?,
  set, take, ltb, leb, ◌==◌, if◌then◌else◌, Option, none, some, Outcome, ok, err, panic, ◌>>=◌,
  load,
}
use go_fiscobcos.Heap.{Limit, out_of_fuel, Interface, heap_push, heap_pop, heap_remove, heap_fix}

-- What a timer does when it fires: the function given to AfterFunc, or NewTimer's send of the time.
pub data Action (F : Type 0) : Type 0 where
  call : F → Action F
  send : Action F

-- `at` and `do`; `has_channel` where the field `ch` is not nil.
pub record SimTimer (F : Type 0) : Type 0 where
  pub time : ℕ
  pub index : Option ℕ
  pub action : Action F
  pub has_channel : Bool

pub record Simulated (F : Type 0) : Type 0 where
  pub now : ℕ
  pub scheduled : List ℕ
  pub timers : List (SimTimer F)

-- Signed words are in the order of the numbers that are 2^63 more.
abbrev pub signed_key : ℕ → ℕ
signed_key t = (t + 2 ^ 63) % 2 ^ 64

-- `t.Add(d)`
abbrev pub add_duration : ℕ → ℕ → ℕ
add_duration t d = (t + d) % 2 ^ 64

module _ {F : Type 0} where
  -- `t.index = i` for the timer `t`.
  abbrev pub set_index : Simulated F → ℕ → Option ℕ → Outcome Limit (Simulated F)
  set_index s t i = load s.timers t >>= λ timer.
      ok (record s { timers = set s.timers t (record timer { index = i }) })

  abbrev pub timers_len : Simulated F → ℕ
  timers_len s = length s.scheduled

  unfoldable pub timers_less : Simulated F → ℕ → ℕ → Outcome Limit Bool
  timers_less s i j = load s.scheduled i >>= λ a. load s.timers a >>= λ x.
      load s.scheduled j >>= λ b.
      load s.timers b >>= λ y. ok (ltb (signed_key x.time) (signed_key y.time))

  unfoldable pub timers_swap : Simulated F → ℕ → ℕ → Outcome Limit (Simulated F)
  timers_swap s i j = load s.scheduled j >>= λ b. load s.scheduled i >>= λ a.
      set_index (record s { scheduled = set (set s.scheduled i b) j a }) b (some i) >>= λ s'.
      set_index s' a (some j)

  unfoldable pub timers_push : Simulated F → ℕ → Outcome Limit (Simulated F)
  timers_push s t = set_index s t (some (length s.scheduled)) >>= λ s'.
      ok (record s' { scheduled = s'.scheduled ++ t ∷ [] })

  -- Of an empty heap the last index is -1, which is out of range.
  unfoldable pub timers_pop : Simulated F → Outcome Limit (ℕ × Simulated F)
  timers_pop s = elim (length s.scheduled) [
    | zero ↦ panic
    | suc end ↦ load s.scheduled end >>= λ t.
        set_index s t none >>= λ s'. ok (t, record s' { scheduled = take end s'.scheduled })
  ]

  abbrev pub sim_timer_heap : Interface (Simulated F) ℕ
  sim_timer_heap = record {
    len = timers_len;
    less = timers_less;
    swap = timers_swap;
    push = timers_push;
    pop = timers_pop;
  }

  -- The timer and the clock; a new timer has the index 0, the zero value, until it is pushed.
  pub schedule : Simulated F → ℕ → Action F → Bool → Outcome Limit (ℕ × Simulated F)
  schedule s d action has_channel =
      let t = length s.timers in
      let timer : SimTimer F = record {
        time = add_duration s.now d;
        index = some 0;
        action = action;
        has_channel = has_channel;
      } in
      heap_push sim_timer_heap (record s { timers = s.timers ++ timer ∷ [] }) t >>= λ s'. ok (t, s')

  pub after_func : Simulated F → ℕ → F → Outcome Limit (ℕ × Simulated F)
  unfolding schedule
  after_func s d f = schedule s d (call f) false

  pub new_timer : Simulated F → ℕ → Outcome Limit (ℕ × Simulated F)
  unfolding schedule
  new_timer s d = schedule s d send true

  -- Whether the first timer is due at `end`.
  abbrev pub is_due : Simulated F → ℕ → Outcome Limit Bool
  is_due s end =
      if timers_len s == 0
      then ok false
      else (load s.scheduled 0 >>= λ t.
          load s.timers t >>= λ timer. ok (leb (signed_key timer.time) (signed_key end)))

  -- The timers that are due, in the order in which their actions run.
  pub run_loop : ℕ → Simulated F → ℕ → Outcome Limit (List ℕ × Simulated F)
  run_loop zero s end = err out_of_fuel
  run_loop (suc fuel) s end = is_due s end >>= λ due. elim due [
    | true ↦
        (heap_pop sim_timer_heap s >>= λ (t, s').
        run_loop fuel s' end >>= λ (fired, s''). ok (t ∷ fired, s''))
    | false ↦ ok ([], s)
  ]

  -- The actions run after the clock is unlocked; they are the caller's code.
  pub run : Simulated F → ℕ → Outcome Limit (List ℕ × Simulated F)
  unfolding run_loop
  run s d =
      let end = add_duration s.now d in
      run_loop (length s.scheduled + 1) s end >>= λ (fired, s'). ok (fired, record s' { now = end })

  abbrev pub active_timers : Simulated F → ℕ
  active_timers s = length s.scheduled

  pub stop : Simulated F → ℕ → Outcome Limit (Bool × Simulated F)
  stop s t = load s.timers t >>= λ timer. elim timer.index [
    | none ↦ ok (false, s)
    | some i ↦
        (heap_remove sim_timer_heap s i >>= λ (removed, s').
        set_index s' t none >>= λ s''. ok (true, s''))
  ]

  pub reset : Simulated F → ℕ → ℕ → Outcome Limit (Simulated F)
  reset s t d = load s.timers t >>= λ timer.
      if timer.has_channel
      then (let s' = record s {
        timers = set s.timers t (record timer { time = add_duration s.now d });
      } in
          elim timer.index [
            | none ↦ heap_push sim_timer_heap s' t
            | some i ↦ heap_fix sim_timer_heap s' i
          ])
      else panic
