-- ===== src/Mclock/Schedule.antt =====
-- New timers, and timers that are set again.
use mathlib.Core.List.{Perm}
use native.Mathlib.Decide.{ℕ_discrete}
use go_fiscobcos.Base.{
  ℕ, ◌+◌, ◌<◌, ◌≡◌, ◌∙◌, refl, sym, ap, Bool, List, [], ◌∷◌, ◌++◌, length, get_elem?, set, Option,
  none, some, ok, >>=-ok, get_elem?-inside, get_elem?-front, get_elem?-back, set-back,
  length-append, arith,
}
use go_fiscobcos.Heap.Array.{entry}
use go_fiscobcos.Heap.Order.{IsHeap}
use go_fiscobcos.Heap.Operations.{Pushed-heap_push, heap_push-same, IsHeap-keys}
use go_fiscobcos.Mclock.{
  SimTimer, Simulated, Action, add_duration, signed_key, sim_timer_heap, timers_push, schedule,
}
use go_fiscobcos.Mclock.Timers.{time_or_0, time_of, some_injective, none-some}
use go_fiscobcos.Mclock.Sortable.{set_index_lem, key_of, key_at_lem, timers_implements}
use go_fiscobcos.Mclock.Clock.{IsClock}

-- A clock in order: a heap in the order of its timers' times, which know their places.
abbrev pub IsConsistent : {F : Type 0} → Simulated F → Type 0
IsConsistent s = IsClock (time_of s.timers) (length s.timers) s

-- The same keys, for all timers that are in the heap.
pub IsHeap-times :
    (times times' : ℕ → ℕ) (a : List ℕ)
    → ((c t : ℕ) → get_elem? a c ≡ some t → times' t ≡ times t)
    → IsHeap (key_of times) (length a) a
    → IsHeap (key_of times') (length a) a
IsHeap-times times times' a same heap =
    IsHeap-keys (key_of times) (key_of times') (length a) a
      (λ c h.
        let (t, e) = entry a c h in
        key_at_lem (key_of times') a c t e
        ∙ ap signed_key (same c t e)
        ∙ sym (key_at_lem (key_of times) a c t e))
      heap

module _ {F : Type 0} where
  pub IsClock-IsConsistent :
      (times : ℕ → ℕ) (count : ℕ) (s : Simulated F) → IsClock times count s → IsConsistent s
  IsClock-IsConsistent times count s ready = record {
    formed = record { placed = ready.formed.placed; timed = λ t. refl; many = refl };
    ordered =
        IsHeap-times times (time_of s.timers) s.scheduled (λ c t e. ready.formed.timed t)
          ready.ordered;
  }

  module _ (s : Simulated F) (timer : SimTimer F) where
    added_here :
        (i : Option ℕ)
        → get_elem? (s.timers ++ (record timer { index = i }) ∷ []) (length s.timers)
          ≡ some (record timer { index = i })
    added_here i =
        ap (get_elem? (s.timers ++ (record timer { index = i }) ∷ [])) (omega arith)
        ∙ get_elem?-back s.timers ((record timer { index = i }) ∷ []) 0

    -- Push gives a new timer its index, whatever it was.
    timers_push-added :
        (i : Option ℕ)
        → timers_push
            (record s { timers = s.timers ++ (record timer { index = i }) ∷ [] })
            (length s.timers)
          ≡ ok (record s {
            timers = s.timers ++ (record timer { index = some (length s.scheduled) }) ∷ [];
            scheduled = s.scheduled ++ length s.timers ∷ [];
          })
    unfolding timers_push
    timers_push-added i =
        let place : Option ℕ = some (length s.scheduled) in
        let old : List (SimTimer F) = s.timers ++ (record timer { index = i }) ∷ [] in
        let written : set old (length s.timers) (record timer { index = place })
            ≡ s.timers ++ (record timer { index = place }) ∷ [] =
          ap (λ (k : ℕ). set old k (record timer { index = place })) (omega arith)
          ∙ set-back s.timers ((record timer { index = i }) ∷ []) 0
              (record timer { index = place }) in
        (>>=-ok _
          (set_index_lem (record s { timers = old }) (length s.timers) place
            (record timer { index = i }) (added_here i))
          (ap
            (λ (l : List (SimTimer F)).
              ok (record s { timers = l; scheduled = s.scheduled ++ length s.timers ∷ [] }))
            written))

    -- The new timer, before it is pushed.
    IsClock-added :
        IsConsistent s
        → IsClock
            (time_of (s.timers ++ (record timer { index = none }) ∷ []))
            (length s.timers + 1)
            (record s { timers = s.timers ++ (record timer { index = none }) ∷ [] })
    IsClock-added ready =
        let more : List (SimTimer F) = s.timers ++ (record timer { index = none }) ∷ [] in
        let old = λ (u : ℕ) (h : u < length s.timers).
          get_elem?-front s.timers ((record timer { index = none }) ∷ []) u h in
        record {
          formed = record {
            placed = record {
              forth = λ i u e.
                  let (other, found, index) = ready.formed.placed.forth i u e in
                  (other, old u (get_elem?-inside s.timers u other found) ∙ found, index);
              back = λ i u other found index. elim (ℕ_discrete u (length s.timers)) [
                | yes new ↦
                    let same : other ≡ record timer { index = none } =
                      some_injective (sym found ∙ rw new (added_here none)) in
                    absurd (none-some (ap (λ (x : SimTimer F). x.index) (sym same) ∙ index))
                | no not_new ↦
                    let inside : u < length s.timers + 1 = omega (
                      arith,
                      get_elem?-inside more u other found,
                      length-append s.timers ((record timer { index = none }) ∷ []),
                    ) in
                    ready.formed.placed.back i u other
                      (sym (old u (omega (arith, not_new))) ∙ found) index
              ];
            };
            timed = λ t. refl;
            many = length-append s.timers ((record timer { index = none }) ∷ []);
          };
          ordered =
              IsHeap-times (time_of s.timers) (time_of more) s.scheduled
                (λ c u e.
                  let (other, found, index) = ready.formed.placed.forth c u e in
                  ap time_or_0 (old u (get_elem?-inside s.timers u other found)))
                ready.ordered;
        }

  -- x
  pub schedule_lem :
      (s : Simulated F) (d : ℕ) (action : Action F) (has_channel : Bool)
      → IsConsistent s
      → (s' : Simulated F) × (schedule s d action has_channel ≡ ok (length s.timers, s'))
        × IsConsistent s'
        × Perm s'.scheduled (length s.timers ∷ s.scheduled)
        × (time_of s'.timers (length s.timers) ≡ add_duration s.now d)
  unfolding schedule
  schedule_lem s d action has_channel ready =
      let t : ℕ = length s.timers in
      let timer : SimTimer F = record {
        time = add_duration s.now d;
        index = none;
        action = action;
        has_channel = has_channel;
      } in
      let more : List (SimTimer F) = s.timers ++ timer ∷ [] in
      let free : Simulated F = record s { timers = more } in
      let (s', pushed, ready', perm) =
        Pushed-heap_push sim_timer_heap (timers_implements (time_of more) (t + 1)) free t
          (IsClock-added s timer ready) (timer, added_here s timer none, refl) in
      let same =
        heap_push-same sim_timer_heap (timers_implements (time_of more) (t + 1))
          (record s { timers = s.timers ++ (record timer { index = some 0 }) ∷ [] }) free t
          (timers_push-added s timer (some 0) ∙ sym (timers_push-added s timer none)) in
      (
        s',
        >>=-ok _ (same ∙ pushed) refl,
        IsClock-IsConsistent (time_of more) (t + 1) s' ready',
        perm,
        ready'.formed.timed t ∙ ap time_or_0 (added_here s timer none),
      )
