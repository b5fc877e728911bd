-- ===== src/Mclock/Clock.antt =====
-- Run fires the timers that are due, in the order of their times, and Stop takes one away.
use mathlib.Core.List.{Perm, Mem, Memᴰ, mem-append_left, mem-cons_of_mem}
use mathlib.Core.List.Perm
use mathlib.Core.Logic.{∥∥₁_elim}
use native.Mathlib.Bridge.{le_prop}
use native.Mathlib.Decide.{dec_le, ℕ_discrete}
use go_fiscobcos.Base.{
  ℕ, zero, suc, ◌+◌, ◌≤◌, ◌<◌, ◌≡◌, ◌∙◌, refl, sym, ap, Bool, true, false, List, [], ◌∷◌, ◌++◌,
  length, get_elem?, leb, ◌==◌, if◌then◌else◌, some, Outcome, ok, >>=-ok, get_elem?-inside, arith,
}
use go_fiscobcos.Heap.{Limit, heap_pop}
use go_fiscobcos.Heap.Array.{entry, get_elem?-Mem, length-Perm}
use go_fiscobcos.Heap.Order.{root_least}
use go_fiscobcos.Heap.Operations.{IsReady, Taken-heap_pop}
use go_fiscobcos.Mclock.{
  Simulated, timers_len, signed_key, add_duration, sim_timer_heap, is_due, run_loop, run,
}
use go_fiscobcos.Mclock.Timers.{some_injective}
use go_fiscobcos.Mclock.Sortable.{load_lem, key_of, key_at_lem, time_lem, timers_implements}

-- The timers in the order of their times.
unfoldable pub IsInOrder : (ℕ → ℕ) → List ℕ → Type 0
IsInOrder times [] = Unit
IsInOrder times (t ∷ l) = ((u : ℕ) → Mem u l → key_of times t ≤ key_of times u) × IsInOrder times l

else_branch :
    (b : Bool) {r : Outcome Limit Bool} (m : Outcome Limit Bool)
    → b ≡ false
    → m ≡ r
    → (if b then ok false else m) ≡ r
else_branch true m e e' = cc
else_branch false m e e' = e'

module _ {F : Type 0} (times : ℕ → ℕ) (count : ℕ) where
  -- The clock's heap among `count` timers, whose times are `times`.
  abbrev pub IsClock : Simulated F → Type 0
  IsClock s = IsReady sim_timer_heap (timers_implements times count) s

  IsClock-now : (s : Simulated F) (t : ℕ) → IsClock s → IsClock (record s { now = t })
  IsClock-now s t ready = record {
    formed = record {
      placed = ready.formed.placed;
      timed = ready.formed.timed;
      many = ready.formed.many;
    };
    ordered = ready.ordered;
  }

  first_least :
      (s : Simulated F) (t u : ℕ)
      → IsClock s
      → get_elem? s.scheduled 0 ≡ some t
      → Mem u s.scheduled
      → key_of times t ≤ key_of times u
  first_least s t u ready first member = ∥∥₁_elim member le_prop (λ m.
      let (i, e) = get_elem?-Mem s.scheduled u m in
      let inside = get_elem?-inside s.scheduled i u e in
      omega (
        arith,
        root_least (key_of times) (length s.scheduled) s.scheduled i ready.ordered inside,
        key_at_lem (key_of times) s.scheduled 0 t first,
        key_at_lem (key_of times) s.scheduled i u e,
      ))

  is_due_lem :
      (s : Simulated F) (end t : ℕ)
      → IsClock s
      → get_elem? s.scheduled 0 ≡ some t
      → is_due s end ≡ ok (leb (key_of times t) (signed_key end))
  is_due_lem s end t ready first =
      let (timer, found, index) = ready.formed.placed.forth 0 t first in
      let time : timer.time ≡ times t = time_lem times count s t timer ready.formed found in
      let more : 0 < length s.scheduled = get_elem?-inside s.scheduled 0 t first in
      else_branch (timers_len s == 0) _
        (let test : (timers_len s == 0) ≡ false = ground (arith, more) in test)
        (>>=-ok _ (load_lem s.scheduled 0 t first) (
          >>=-ok _ (load_lem s.timers t timer found)
            (ap (λ (k : ℕ). ok (leb (signed_key k) (signed_key end))) time)))

  run_loop_stops :
      (fuel : ℕ) (s : Simulated F) (end : ℕ)
      → is_due s end ≡ ok false
      → run_loop (suc fuel) s end ≡ ok ([], s)
  unfolding run_loop
  run_loop_stops fuel s end e = >>=-ok _ e refl

  run_loop_fires :
      (fuel : ℕ) (s s' s'' : Simulated F) (end t : ℕ) (fired : List ℕ)
      → is_due s end ≡ ok true
      → heap_pop sim_timer_heap s ≡ ok (t, s')
      → run_loop fuel s' end ≡ ok (fired, s'')
      → run_loop (suc fuel) s end ≡ ok (t ∷ fired, s'')
  unfolding run_loop
  run_loop_fires fuel s s' s'' end t fired e e' e'' = >>=-ok _ e (>>=-ok _ e' (>>=-ok _ e'' refl))

  -- What Run does to the timers.
  pub record HasFired (s : Simulated F) (end : ℕ) (fired : List ℕ) (s' : Simulated F) : Type 0 where
    pub ready : IsClock s'
    pub order : IsInOrder times fired
    pub due : (t : ℕ) → Mem t fired → key_of times t ≤ signed_key end
    pub later : (t : ℕ) → Mem t s'.scheduled → signed_key end < key_of times t
    pub same : Perm (fired ++ s'.scheduled) s.scheduled

  HasFired-none :
      (s : Simulated F) (end : ℕ)
      → IsClock s
      → ((t : ℕ) → Mem t s.scheduled → signed_key end < key_of times t)
      → HasFired s end [] s
  unfolding IsInOrder
  HasFired-none s end ready later = record {
    ready = ready;
    order = tt;
    due = λ t m. ∥∥₁_elim m le_prop (λ d. elim d [ ]);
    later = later;
    same = Perm.refl s.scheduled;
  }

  HasFired-more :
      (s s' s'' : Simulated F) (end t : ℕ) (fired : List ℕ)
      → IsClock s
      → get_elem? s.scheduled 0 ≡ some t
      → key_of times t ≤ signed_key end
      → Perm (t ∷ s'.scheduled) s.scheduled
      → HasFired s' end fired s''
      → HasFired s end (t ∷ fired) s''
  unfolding IsInOrder
  HasFired-more s s' s'' end t fired ready first due perm h = record {
    ready = h.ready;
    order = (
      λ u m. first_least s t u ready first (
          Perm.subset perm u
            (mem-cons_of_mem t (Perm.subset h.same u (mem-append_left s''.scheduled m)))),
      h.order,
    );
    due = λ u m.
        ∥∥₁_elim m le_prop
          (λ d. elim d [ Memᴰ.head e ↦ rw e due | Memᴰ.tail d' ↦ h.due u ∣ d' ∣₁ ]);
    later = h.later;
    same = Perm.trans (Perm.cons t h.same) perm;
  }

  run_loop_lem :
      (fuel : ℕ) (s : Simulated F) (end : ℕ)
      → length s.scheduled < fuel
      → IsClock s
      → (fired : List ℕ) × (s' : Simulated F) × (run_loop fuel s end ≡ ok (fired, s'))
        × HasFired s end fired s'
  run_loop_lem zero s end enough ready = absurd (omega arith)
  run_loop_lem (suc fuel) s end enough ready = elim (ℕ_discrete (length s.scheduled) 0) [
    | yes idle ↦
        let over : is_due s end ≡ ok false = ground (arith, idle) in
        (
          [],
          s,
          run_loop_stops fuel s end over,
          HasFired-none s end ready (λ t m. ∥∥₁_elim m le_prop (λ d. absurd (
              omega (
                arith,
                idle,
                get_elem?-inside s.scheduled _ t (get_elem?-Mem s.scheduled t d).1,
              )))),
        )
    | no more ↦
        let (t, first) = entry s.scheduled 0 (omega (arith, more)) in
        let test = is_due_lem s end t ready first in
        elim (dec_le (key_of times t) (signed_key end)) [
          | no late ↦
              let over : is_due s end ≡ ok false =
                test ∙ ap (λ (b : Bool). ok b) (ground (arith, late)) in
              (
                [],
                s,
                run_loop_stops fuel s end over,
                HasFired-none s end ready
                    (λ u m. omega (arith, late, first_least s t u ready first m)),
              )
          | yes due ↦
              let over : is_due s end ≡ ok true =
                test ∙ ap (λ (b : Bool). ok b) (ground (arith, due)) in
              let (x, s1, popped, here, ready1, perm) =
                Taken-heap_pop sim_timer_heap (timers_implements times count) s ready
                  (omega (arith, more)) in
              let same : x ≡ t = some_injective (sym here ∙ first) in
              let popped' : heap_pop sim_timer_heap s ≡ ok (t, s1) =
                popped ∙ ap (λ (u : ℕ). ok (u, s1)) same in
              let perm' : Perm (t ∷ s1.scheduled) s.scheduled = rw same at perm in
              let (fired, s2, e, h) =
                run_loop_lem fuel s1 end (omega (arith, enough, length-Perm perm')) ready1 in
              (
                t ∷ fired,
                s2,
                run_loop_fires fuel s s1 s2 end t fired over popped' e,
                HasFired-more s s1 s2 end t fired ready first due perm' h,
              )
        ]
  ]

  -- On a clock whose timers are a heap that knows their places, Run ends with the clock moved
  -- by the duration, returns the timers that are due at that time in the order of their times
  -- and leaves exactly those that are due later, again as a heap that knows their places.
  pub run_lem :
      (s : Simulated F) (d : ℕ)
      → IsClock s
      → (fired : List ℕ) × (s' : Simulated F) × (run s d ≡ ok (fired, s'))
        × (s'.now ≡ add_duration s.now d)
        × HasFired s (add_duration s.now d) fired s'
  unfolding run
  run_lem s d ready =
      let (fired, s', e, h) =
        run_loop_lem (length s.scheduled + 1) s (add_duration s.now d) (omega arith) ready in
      (
        fired,
        record s' { now = add_duration s.now d },
        >>=-ok _ e refl,
        refl,
        record {
          ready = IsClock-now s' (add_duration s.now d) h.ready;
          order = h.order;
          due = h.due;
          later = h.later;
          same = h.same;
        },
      )
