-- ===== src/Mclock/Reset.antt =====
-- Reset gives a timer a new time, in the heap or back in it.
use mathlib.Core.List.{Perm}
use native.Mathlib.Decide.{ℕ_discrete}
use go_fiscobcos.Base.{
  ℕ, ◌≡◌, ◌≢◌, ◌∙◌, refl, sym, ap, Bool, true, List, ◌∷◌, length, get_elem?, set, Option, none,
  some, Option-cases, inl, inr, ◌⊎◌, Outcome, ok, panic, if◌then◌else◌, >>=-ok, get_elem?-inside,
  length-set, arith,
}
use go_fiscobcos.Heap.{Limit, heap_push, heap_fix}
use go_fiscobcos.Heap.Array.{entry, get_elem?-set}
use go_fiscobcos.Heap.Order.{IsLoose}
use go_fiscobcos.Heap.Operations.{Pushed-heap_push, IsLoose-changed, Heaped-heap_fix}
use go_fiscobcos.Mclock.{SimTimer, Simulated, add_duration, signed_key, sim_timer_heap, reset}
use go_fiscobcos.Mclock.Timers.{time_or_0, time_of, some_injective, none-some, one_place}
use go_fiscobcos.Mclock.Sortable.{load_lem, key_of, key_at_lem, IsTimers, timers_implements}
use go_fiscobcos.Mclock.Clock.{IsClock}
use go_fiscobcos.Mclock.Schedule.{IsConsistent, IsClock-IsConsistent, IsHeap-times}

module _ {F : Type 0} (s : Simulated F) (t : ℕ) (timer : SimTimer F)
    (found : get_elem? s.timers t ≡ some timer) (time : ℕ) where
  retimed : List (SimTimer F)
  retimed = set s.timers t (record timer { time = time })

  retimed_here : get_elem? retimed t ≡ some (record timer { time = time })
  unfolding retimed
  retimed_here = ground (
    arith,
    get_elem?-set s.timers t t (record timer { time = time })
        (get_elem?-inside s.timers t timer found),
  )

  retimed_other : (u : ℕ) → u ≢ t → get_elem? retimed u ≡ get_elem? s.timers u
  unfolding retimed
  retimed_other u apart = ground (
    arith,
    apart,
    get_elem?-set s.timers t u (record timer { time = time })
        (get_elem?-inside s.timers t timer found),
  )

  IsTimers-retimed :
      IsConsistent s → IsTimers (time_of retimed) (length s.timers) (record s { timers = retimed })
  unfolding retimed
  IsTimers-retimed ready = record {
    placed = record {
      forth = λ i u e.
          let (other, found', index) = ready.formed.placed.forth i u e in
          elim (ℕ_discrete u t) [
            | yes is_t ↦
                let same : other ≡ timer = some_injective (sym found' ∙ rw is_t found) in
                rw is_t (_, retimed_here, ap (λ (x : SimTimer F). x.index) (sym same) ∙ index)
            | no not_t ↦ (other, retimed_other u not_t ∙ found', index)
          ];
      back = λ i u other found' index. elim (ℕ_discrete u t) [
        | yes is_t ↦
            let same : other ≡ record timer { time = time } =
              some_injective (sym found' ∙ rw is_t retimed_here) in
            ready.formed.placed.back i u timer (rw is_t found)
              (ap (λ (x : SimTimer F). x.index) (sym same) ∙ index)
        | no not_t ↦ ready.formed.placed.back i u other (sym (retimed_other u not_t) ∙ found') index
      ];
    };
    timed = λ u. refl;
    many = length-set s.timers t (record timer { time = time });
  }

  -- Reset of a timer that has fired or was stopped.
  IsClock-idle :
      IsConsistent s
      → timer.index ≡ none
      → IsClock (time_of retimed) (length s.timers) (record s { timers = retimed })
  IsClock-idle ready free = record {
    formed = IsTimers-retimed ready;
    ordered =
        IsHeap-times (time_of s.timers) (time_of retimed) s.scheduled
          (λ c u e.
            let (other, found', index) = ready.formed.placed.forth c u e in
            let not_t : u ≢ t = λ z. none-some (
              sym free
              ∙ ap (λ (x : SimTimer F). x.index) (some_injective (sym found ∙ rw z at found'))
              ∙ index) in
            ap time_or_0 (retimed_other u not_t))
          ready.ordered;
  }

  -- Reset of a timer in the heap: only its own key has changed.
  IsLoose-retimed :
      (i : ℕ)
      → IsConsistent s
      → get_elem? s.scheduled i ≡ some t
      → IsLoose (key_of (time_of retimed)) (length s.scheduled) s.scheduled i
  IsLoose-retimed i ready here =
      IsLoose-changed (key_of (time_of s.timers)) (key_of (time_of retimed)) (length s.scheduled)
        s.scheduled i (get_elem?-inside s.scheduled i t here) ready.ordered
        (λ c h apart.
          let (u, e) = entry s.scheduled c h in
          let not_t : u ≢ t = λ z.
            apart (one_place s.scheduled s.timers ready.formed.placed c i t (rw z at e) here) in
          key_at_lem (key_of (time_of retimed)) s.scheduled c u e
          ∙ ap (λ (o : Option (SimTimer F)). signed_key (time_or_0 o)) (retimed_other u not_t)
          ∙ sym (key_at_lem (key_of (time_of s.timers)) s.scheduled c u e))

  -- The continuation of Reset.
  resume : Simulated F → Option ℕ → Outcome Limit (Simulated F)
  resume s' index = elim index [
    | none ↦ heap_push sim_timer_heap s' t
    | some i ↦ heap_fix sim_timer_heap s' i
  ]

  reset_resumes :
      (d : ℕ) (index : Option ℕ)
      → timer.has_channel ≡ true
      → timer.index ≡ index
      → time ≡ add_duration s.now d
      → reset s t d ≡ resume (record s { timers = retimed }) index
  unfolding reset retimed resume
  reset_resumes d index channel same_index same =
      let s' : ℕ → Simulated F =
        λ k. record s { timers = set s.timers t (record timer { time = k }) } in
      >>=-ok _ (load_lem s.timers t timer found) (
        ap (λ (b : Bool). if b then resume (s' (add_duration s.now d)) timer.index else panic)
          channel
        ∙ ap (resume (s' (add_duration s.now d))) same_index
        ∙ ap (λ (k : ℕ). resume (s' k) index) (sym same))

  -- The timer is in the heap then, with its new time, beside those that were there.
  abbrev pub WasReset : Simulated F → Type 0
  WasReset s' =
      IsConsistent s'
      × (time_of s'.timers t ≡ time)
      × (Perm s'.scheduled (t ∷ s.scheduled) ⊎ Perm s'.scheduled s.scheduled)

  pub reset_lem :
      (d : ℕ)
      → IsConsistent s
      → timer.has_channel ≡ true
      → time ≡ add_duration s.now d
      → (s' : Simulated F) × (reset s t d ≡ ok s') × WasReset s'
  unfolding resume
  reset_lem d ready channel same =
      let times : ℕ → ℕ = time_of retimed in
      let count : ℕ = length s.timers in
      let s1 : Simulated F = record s { timers = retimed } in
      let here : times t ≡ time = ap time_or_0 retimed_here in
      elim (Option-cases timer.index) [
        | inl free ↦
            let (s', e, ready', perm) =
              Pushed-heap_push sim_timer_heap (timers_implements times count) s1 t
                (IsClock-idle ready free) (_, retimed_here, free) in
            (
              s',
              reset_resumes d none channel free same ∙ e,
              (IsClock-IsConsistent times count s' ready', ready'.formed.timed t ∙ here, inl perm),
            )
        | inr (i, index) ↦
            let place = ready.formed.placed.back i t timer found index in
            let (s', e, wf, heap, moved) =
              Heaped-heap_fix sim_timer_heap (timers_implements times count) s1 i
                (IsTimers-retimed ready) (get_elem?-inside s.scheduled i t place)
                (IsLoose-retimed i ready place) in
            let size : length s'.scheduled ≡ length s.scheduled = moved.size in
            (
              s',
              reset_resumes d (some i) channel index same ∙ e,
              (
                IsClock-IsConsistent times count s'
                    (record { formed = wf; ordered = rw size heap }),
                wf.timed t ∙ here,
                inr moved.perm,
              ),
            )
      ]
