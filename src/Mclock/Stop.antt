-- ===== src/Mclock/Stop.antt =====
-- Stop takes a timer out of the heap that is in it.
use mathlib.Core.List.{Perm, Mem, Nodup, Nodup-cons, Nodup-nil}
use mathlib.Core.List.Perm
use mathlib.Core.Logic.{∥∥₁_elim}
use mathlib.Core.HLevel.{⊥_prop}
use native.Mathlib.Decide.{ℕ_discrete}
use go_fiscobcos.Base.{
  ℕ, suc, ◌<◌, ◌≡◌, ◌≢◌, ◌∙◌, refl, sym, ap, true, false, List, [], ◌∷◌, length, get_elem?, none,
  some, ok, >>=-ok, get_elem?-inside, length-set, Option-cases, inl, inr, arith,
}
use go_fiscobcos.Heap.{heap_remove}
use go_fiscobcos.Heap.Array.{entry, get_elem?-Mem, Mem-get_elem?}
use go_fiscobcos.Heap.Operations.{Taken-heap_remove}
use go_fiscobcos.Mclock.{SimTimer, Simulated, sim_timer_heap, set_index, stop}
use go_fiscobcos.Mclock.Timers.{
  indexed, indexed_here, indexed_other, time_of-indexed, some_injective, none-some, one_place,
}
use go_fiscobcos.Mclock.Sortable.{load_lem, set_index_lem, IsTimers, timers_implements}
use go_fiscobcos.Mclock.Clock.{IsClock}

Nodup-places :
    {A : Type 0} (a : List A)
    → ((i j : ℕ) (x : A) → get_elem? a i ≡ some x → get_elem? a j ≡ some x → i ≡ j)
    → Nodup a
Nodup-places [] once = Nodup-nil
Nodup-places (x ∷ a) once = Nodup-cons.1 (
  λ m.
      ∥∥₁_elim m ⊥_prop
        (λ d. let (i, e) = get_elem?-Mem a x d in absurd (omega (arith, once 0 (suc i) x refl e))),
  Nodup-places a (λ i j y ei ej. omega (arith, once (suc i) (suc j) y ei ej)),
)

module _ {F : Type 0} (times : ℕ → ℕ) (count : ℕ) where
  -- A timer that is not in the heap may be given the index -1.
  IsTimers-unplaced :
      (s : Simulated F) (t : ℕ) (timer : SimTimer F) (found : get_elem? s.timers t ≡ some timer)
      → IsTimers times count s
      → ¬ Mem t s.scheduled
      → IsTimers times count (record s { timers = indexed s.timers t timer found none })
  IsTimers-unplaced s t timer found wf out =
      let apart = indexed_other s.timers t timer found none in
      record {
        placed = record {
          forth = λ i u e.
              let (other, found', index) = wf.placed.forth i u e in
              let not_t : u ≢ t = λ z. out ∣ Mem-get_elem? s.scheduled i t (rw z at e) ∣₁ in
              (other, apart u not_t ∙ found', index);
          back = λ i u other found' index. elim (ℕ_discrete u t) [
            | yes is_t ↦
                let same : other ≡ record timer { index = none } =
                  some_injective
                    (sym found' ∙ rw is_t (indexed_here s.timers t timer found none)) in
                absurd (none-some (ap (λ (x : SimTimer F). x.index) (sym same) ∙ index))
            | no not_t ↦ wf.placed.back i u other (sym (apart u not_t) ∙ found') index
          ];
        };
        timed = λ u. time_of-indexed s.timers t timer found none u ∙ wf.timed u;
        many = length-set s.timers t (record timer { index = none }) ∙ wf.many;
      }

  pub stop_expired :
      (s : Simulated F) (t : ℕ) (timer : SimTimer F)
      → get_elem? s.timers t ≡ some timer
      → timer.index ≡ none
      → stop s t ≡ ok (false, s)
  unfolding stop
  stop_expired s t timer found index = >>=-ok _ (load_lem s.timers t timer found) (rw index refl)

  stop_removes :
      (s s' s'' : Simulated F) (t i removed : ℕ) (timer : SimTimer F)
      → get_elem? s.timers t ≡ some timer
      → timer.index ≡ some i
      → heap_remove sim_timer_heap s i ≡ ok (removed, s')
      → set_index s' t none ≡ ok s''
      → stop s t ≡ ok (true, s'')
  unfolding stop
  stop_removes s s' s'' t i removed timer found index e e' =
      >>=-ok _ (load_lem s.timers t timer found) (rw index (>>=-ok _ e (>>=-ok _ e' refl)))

  -- What Stop does: nothing to a timer that is not in the heap, and it takes any other one out.
  abbrev pub Stopped : Simulated F → ℕ → SimTimer F → Type 0
  Stopped s t timer = elim timer.index [
    | none ↦ stop s t ≡ ok (false, s)
    | some i ↦
        (s' : Simulated F) × (stop s t ≡ ok (true, s'))
        × IsClock times count s'
        × Perm (t ∷ s'.scheduled) s.scheduled
  ]

  pub Stopped-active :
      (s : Simulated F) (t i : ℕ) (timer : SimTimer F)
      → IsClock times count s
      → get_elem? s.timers t ≡ some timer
      → timer.index ≡ some i
      → (s' : Simulated F) × (stop s t ≡ ok (true, s'))
        × IsClock times count s'
        × Perm (t ∷ s'.scheduled) s.scheduled
  Stopped-active s t i timer ready found index =
      let here = ready.formed.placed.back i t timer found index in
      let (x, s1, e, there, ready1, perm) =
        Taken-heap_remove sim_timer_heap (timers_implements times count) s i ready
          (get_elem?-inside s.scheduled i t here) in
      let same : x ≡ t = some_injective (sym there ∙ here) in
      let perm' : Perm (t ∷ s1.scheduled) s.scheduled = rw same at perm in
      let unique = Nodup-places s.scheduled (one_place s.scheduled s.timers ready.formed.placed) in
      let out : ¬ Mem t s1.scheduled = (Nodup-cons.0 (Perm.nodup (Perm.symm perm') unique)).0 in
      let inside : t < length s1.timers =
        omega
          (arith, get_elem?-inside s.timers t timer found, ready.formed.many, ready1.formed.many) in
      let (timer', found') = entry s1.timers t inside in
      (
        record s1 { timers = indexed s1.timers t timer' found' none },
        stop_removes s s1 _ t i x timer found index e (set_index_lem s1 t none timer' found'),
        record {
          formed = IsTimers-unplaced s1 t timer' found' ready1.formed out;
          ordered = ready1.ordered;
        },
        perm',
      )

  -- On such a clock, Stop of a timer whose index is -1 returns false and changes nothing, and
  -- Stop of any other returns true and takes just that timer out of the heap.
  pub Stopped-cases :
      (s : Simulated F) (t : ℕ) (timer : SimTimer F)
      → IsClock times count s
      → get_elem? s.timers t ≡ some timer
      → Stopped s t timer
  Stopped-cases s t timer ready found = elim (Option-cases timer.index) [
    | inl free ↦ rw free (stop_expired s t timer found free)
    | inr (i, index) ↦ rw index (Stopped-active s t i timer ready found index)
  ]
