-- ===== src/Mclock/Tests.antt =====
-- Witnesses: a clock with two timers.
use go_fiscobcos.Base.{
  ℕ, zero, suc, ◌≡◌, refl, true, false, List, [], ◌∷◌, get_elem?, some, ok, arith,
}
use go_fiscobcos.Heap.{heap_push, up, up_loop}
use go_fiscobcos.Mclock.{
  SimTimer, Simulated, call, send, add_duration, schedule, timers_push, run, reset,
}
use go_fiscobcos.Mclock.Timers.{time_of}
use go_fiscobcos.Mclock.Clock.{HasFired, run_lem}
use go_fiscobcos.Mclock.Stop.{Stopped, Stopped-cases}
use go_fiscobcos.Mclock.Schedule.{IsConsistent}
use go_fiscobcos.Mclock.Reset.{WasReset, reset_lem}
use go_fiscobcos.Mclock.Reachable.{IsReachable, start, schedules, IsReachable-IsConsistent}

abbrev early : SimTimer ℕ
early = record { time = 5; index = some 0; action = call 7; has_channel = false }

abbrev late : SimTimer ℕ
late = record { time = 9; index = some 1; action = send; has_channel = true }

abbrev two_timers : Simulated ℕ
two_timers = record { now = 3; scheduled = 1 ∷ 0 ∷ []; timers = late ∷ early ∷ [] }

two_timers-IsConsistent : IsConsistent two_timers
two_timers-IsConsistent = record {
  formed = record {
    placed = record { forth = forth; back = back };
    timed = λ t. refl;
    many = refl;
  };
  ordered = λ c pos h. let at : c ≡ 1 = omega arith in rw at (omega arith);
}
  where
    forth :
        (i t : ℕ)
        → get_elem? two_timers.scheduled i ≡ some t
        → (timer : SimTimer ℕ) × (get_elem? two_timers.timers t ≡ some timer)
          × (timer.index ≡ some i)
    forth zero t e = let at : t ≡ 1 = cc in rw at (early, refl, refl)
    forth (suc zero) t e = let at : t ≡ 0 = cc in rw at (late, refl, refl)
    forth (suc (suc i)) t e = absurd cc

    back :
        (i t : ℕ) (timer : SimTimer ℕ)
        → get_elem? two_timers.timers t ≡ some timer
        → timer.index ≡ some i
        → get_elem? two_timers.scheduled i ≡ some t
    back i zero timer e index = let same : late ≡ timer = cc in let at : i ≡ 1 = cc in rw at refl
    back i (suc zero) timer e index =
        let same : early ≡ timer = cc in let at : i ≡ 0 = cc in rw at refl
    back i (suc (suc t)) timer e index = absurd cc

run_lem_example :
    (fired : List ℕ) × (s' : Simulated ℕ) × (run two_timers 4 ≡ ok (fired, s'))
    × (s'.now ≡ add_duration two_timers.now 4)
    × HasFired (time_of two_timers.timers) 2 two_timers (add_duration two_timers.now 4) fired s'
run_lem_example = run_lem (time_of two_timers.timers) 2 two_timers 4 two_timers-IsConsistent

Stopped-cases_example : Stopped (time_of two_timers.timers) 2 two_timers 1 early
Stopped-cases_example =
    Stopped-cases (time_of two_timers.timers) 2 two_timers 1 early two_timers-IsConsistent refl

reset_lem_example :
    (s' : Simulated ℕ) × (reset two_timers 0 20 ≡ ok s') × WasReset two_timers 0 late refl 23 s'
reset_lem_example = reset_lem two_timers 0 late refl 23 20 two_timers-IsConsistent refl refl

abbrev one_timer : Simulated ℕ
one_timer = record {
  now = 0;
  scheduled = 0 ∷ [];
  timers = record { time = 6; index = some 0; action = call 2; has_channel = false } ∷ [];
}

one_timer-IsReachable : IsReachable one_timer
unfolding schedule timers_push heap_push up up_loop
one_timer-IsReachable = schedules 6 (call 2) false start refl

IsReachable-IsConsistent_example : IsConsistent one_timer
IsReachable-IsConsistent_example = IsReachable-IsConsistent one_timer one_timer-IsReachable
