-- ===== src/Mclock/Reachable.antt =====
-- The clock as a state machine, whose steps are the calls of its methods, in any order.
use go_fiscobcos.Base.{
  ℕ, ◌≡◌, ◌∙◌, refl, sym, Bool, false, List, [], length, get_elem?, none, some, Option-cases, inl,
  inr, Bool-cases, Outcome, ok, panic, arith,
}
use go_fiscobcos.Heap.{Limit}
use go_fiscobcos.Mclock.{SimTimer, Simulated, Action, add_duration, schedule, run, stop, reset}
use go_fiscobcos.Mclock.Timers.{time_of}
use go_fiscobcos.Mclock.Clock.{run_lem}
use go_fiscobcos.Mclock.Stop.{stop_expired, Stopped-active}
use go_fiscobcos.Mclock.Schedule.{IsConsistent, IsClock-IsConsistent, schedule_lem}
use go_fiscobcos.Mclock.Reset.{reset_lem}

second :
    {A B : Type 0} {a a' : A} {b b' : B}
    → ◌≡◌ {A = Outcome Limit (A × B)} (ok (a, b)) (ok (a', b'))
    → b ≡ b'
second e = cc

value : {A : Type 0} {a a' : A} → ◌≡◌ {A = Outcome Limit A} (ok a) (ok a') → a ≡ a'
value e = cc

no_panic : {A : Type 0} {a : A} → ◌≡◌ {A = Outcome Limit A} panic (ok a) → ⊥
no_panic e = cc

module _ {F : Type 0} where
  -- The zero value of Simulated.
  abbrev pub new_clock : Simulated F
  new_clock = record { now = 0; scheduled = []; timers = [] }

  -- The states that calls lead to from a new clock.
  pub data IsReachable : Simulated F → Type 0 where
    start : IsReachable new_clock
    schedules :
        {s s' : Simulated F} {t : ℕ} (d : ℕ) (action : Action F) (has_channel : Bool)
        → IsReachable s
        → schedule s d action has_channel ≡ ok (t, s')
        → IsReachable s'
    runs :
        {s s' : Simulated F} {fired : List ℕ} (d : ℕ)
        → IsReachable s
        → run s d ≡ ok (fired, s')
        → IsReachable s'
    stops :
        {s s' : Simulated F} {stopped : Bool} (t : ℕ)
        → IsReachable s
        → stop s t ≡ ok (stopped, s')
        → IsReachable s'
    resets : {s s' : Simulated F} (t d : ℕ) → IsReachable s → reset s t d ≡ ok s' → IsReachable s'

  new_clock-IsConsistent : IsConsistent new_clock
  new_clock-IsConsistent = record {
    formed = record {
      placed = record { forth = λ i t e. absurd cc; back = λ i t timer e index. absurd cc };
      timed = λ t. refl;
      many = refl;
    };
    ordered = λ c pos h. absurd (omega arith);
  }

  stop_out : (s : Simulated F) (t : ℕ) → get_elem? s.timers t ≡ none → stop s t ≡ panic
  unfolding stop
  stop_out s t e = ground (arith, e)

  reset_out : (s : Simulated F) (t d : ℕ) → get_elem? s.timers t ≡ none → reset s t d ≡ panic
  unfolding reset
  reset_out s t d e = ground (arith, e)

  reset_no_channel :
      (s : Simulated F) (t d : ℕ) (timer : SimTimer F)
      → get_elem? s.timers t ≡ some timer
      → timer.has_channel ≡ false
      → reset s t d ≡ panic
  unfolding reset
  reset_no_channel s t d timer e e' = ground (arith, e, e')

  IsConsistent-stop :
      (s s' : Simulated F) (t : ℕ) (stopped : Bool)
      → IsConsistent s
      → stop s t ≡ ok (stopped, s')
      → IsConsistent s'
  IsConsistent-stop s s' t stopped ready e = elim (Option-cases (get_elem? s.timers t)) [
    | inl out ↦ absurd (no_panic (sym (stop_out s t out) ∙ e))
    | inr (timer, found) ↦ elim (Option-cases timer.index) [
      | inl free ↦
          let same =
            second
              (sym (stop_expired (time_of s.timers) (length s.timers) s t timer found free) ∙ e) in
          rw (sym same) ready
      | inr (i, index) ↦
          let (u, e', ready', perm) =
            Stopped-active (time_of s.timers) (length s.timers) s t i timer ready found index in
          let same = second (sym e' ∙ e) in
          rw (sym same) (IsClock-IsConsistent (time_of s.timers) (length s.timers) u ready')
    ]
  ]

  IsConsistent-reset :
      (s s' : Simulated F) (t d : ℕ) → IsConsistent s → reset s t d ≡ ok s' → IsConsistent s'
  IsConsistent-reset s s' t d ready e = elim (Option-cases (get_elem? s.timers t)) [
    | inl out ↦ absurd (no_panic (sym (reset_out s t d out) ∙ e))
    | inr (timer, found) ↦ elim (Bool-cases timer.has_channel) [
      | inr off ↦ absurd (no_panic (sym (reset_no_channel s t d timer found off) ∙ e))
      | inl channel ↦
          let (u, e', (ready', time, perm)) =
            reset_lem s t timer found (add_duration s.now d) d ready channel refl in
          let same = value (sym e' ∙ e) in rw (sym same) ready'
    ]
  ]

  -- Whatever calls of AfterFunc, NewTimer, Run, Stop and Reset succeed on a new simulated
  -- clock, in any order, its timers are a heap in the order of their times, and the index of a
  -- timer is its place in the heap, or -1 where it is not in it.
  pub IsReachable-IsConsistent : (s : Simulated F) → IsReachable s → IsConsistent s
  IsReachable-IsConsistent s start = new_clock-IsConsistent
  IsReachable-IsConsistent s' (schedules {s = s} d action has_channel before e) =
      let (u, e', ready, perm, time) =
        schedule_lem s d action has_channel (IsReachable-IsConsistent s before) in
      let same = second (sym e' ∙ e) in rw (sym same) ready
  IsReachable-IsConsistent s' (runs {s = s} d before e) =
      let (fired, u, e', now, h) =
        run_lem (time_of s.timers) (length s.timers) s d (IsReachable-IsConsistent s before) in
      let same = second (sym e' ∙ e) in
      rw (sym same) (IsClock-IsConsistent (time_of s.timers) (length s.timers) u h.ready)
  IsReachable-IsConsistent s' (stops {s = s} {stopped = stopped} t before e) =
      IsConsistent-stop s s' t stopped (IsReachable-IsConsistent s before) e
  IsReachable-IsConsistent s' (resets {s = s} t d before e) =
      IsConsistent-reset s s' t d (IsReachable-IsConsistent s before) e
