-- ===== src/Mclock/Sortable.antt =====
-- The timers' heap as an implementation of heap.Interface.
use go_fiscobcos.Base.{
  ℕ, suc, ◌<◌, ◌≡◌, ◌∙◌, refl, sym, ap, List, [], ◌∷◌, ◌++◌, length, get_elem?, set, take, ltb,
  Option, none, some, ok, >>=-ok, load, or_panic, get_elem?-inside, get_elem?-back, length-set,
  length-append, take-append, arith,
}
use go_fiscobcos.Heap.{Limit, Implements}
use go_fiscobcos.Heap.Array.{entry, swapped, swapped_def, key_at}
use go_fiscobcos.Mclock.{
  SimTimer, Simulated, signed_key, set_index, timers_less, timers_swap, timers_push, timers_pop,
  sim_timer_heap,
}
use go_fiscobcos.Mclock.Timers.{
  time_or_0, time_of, IsPlaced, indexed, time_of-indexed, IsPlaced-swapped, IsPlaced-pushed,
  IsPlaced-popped,
}

pub load_lem :
    {A : Type 0} (a : List A) (i : ℕ) (x : A) → get_elem? a i ≡ some x → load {E = Limit} a i ≡ ok x
load_lem a i x e = ap or_panic e

abbrev pub key_of : (ℕ → ℕ) → ℕ → ℕ
key_of times t = signed_key (times t)

abbrev key_or_0 : (ℕ → ℕ) → Option ℕ → ℕ
key_or_0 key none = 0
key_or_0 key (some t) = key t

pub key_at_lem :
    (key : ℕ → ℕ) (a : List ℕ) (i t : ℕ) → get_elem? a i ≡ some t → key_at key a i ≡ key t
key_at_lem key a i t e = ap (key_or_0 key) e

module _ {F : Type 0} where
  pub set_index_lem :
      (s : Simulated F) (t : ℕ) (i : Option ℕ) (timer : SimTimer F)
      (found : get_elem? s.timers t ≡ some timer)
      → set_index s t i ≡ ok (record s { timers = indexed s.timers t timer found i })
  set_index_lem s t i timer found = >>=-ok _ (load_lem s.timers t timer found) refl

  -- A timer that is not in the heap.
  abbrev pub IsFree : Simulated F → ℕ → Type 0
  IsFree s t = (timer : SimTimer F) × (get_elem? s.timers t ≡ some timer) × (timer.index ≡ none)

  module _ (times : ℕ → ℕ) (count : ℕ) where
    pub record IsTimers (s : Simulated F) : Type 0 where
      pub placed : IsPlaced s.scheduled s.timers
      pub timed : (t : ℕ) → time_of s.timers t ≡ times t
      pub many : length s.timers ≡ count

    pub time_lem :
        (s : Simulated F) (t : ℕ) (timer : SimTimer F)
        → IsTimers s
        → get_elem? s.timers t ≡ some timer
        → timer.time ≡ times t
    time_lem s t timer wf found = sym (ap time_or_0 found) ∙ wf.timed t

    pub less_ok :
        (s : Simulated F) (i j : ℕ)
        → IsTimers s
        → i < length s.scheduled
        → j < length s.scheduled
        → timers_less s i j
          ≡ ok (ltb (key_at (key_of times) s.scheduled i) (key_at (key_of times) s.scheduled j))
    unfolding timers_less
    less_ok s i j wf hi hj =
        let (a, ea) = entry s.scheduled i hi in
        let (b, eb) = entry s.scheduled j hj in
        let (x, fx, xi) = wf.placed.forth i a ea in
        let (y, fy, yi) = wf.placed.forth j b eb in
        let left : signed_key x.time ≡ key_at (key_of times) s.scheduled i =
          ap signed_key (time_lem s a x wf fx)
          ∙ sym (key_at_lem (key_of times) s.scheduled i a ea) in
        let right : signed_key y.time ≡ key_at (key_of times) s.scheduled j =
          ap signed_key (time_lem s b y wf fy)
          ∙ sym (key_at_lem (key_of times) s.scheduled j b eb) in
        >>=-ok _ (load_lem s.scheduled i a ea) (
          >>=-ok _ (load_lem s.timers a x fx) (
            >>=-ok _ (load_lem s.scheduled j b eb) (
              >>=-ok _ (load_lem s.timers b y fy) (
                ap (λ (k : ℕ). ok (ltb k (signed_key y.time))) left
                ∙ ap (λ (k : ℕ). ok (ltb (key_at (key_of times) s.scheduled i) k)) right))))

    pub swap_ok :
        (s : Simulated F) (i j : ℕ)
        → IsTimers s
        → i < length s.scheduled
        → j < length s.scheduled
        → (s' : Simulated F) × (timers_swap s i j ≡ ok s')
          × IsTimers s'
          × (s'.scheduled ≡ swapped s.scheduled i j)
    unfolding timers_swap
    swap_ok s i j wf hi hj =
        let (a, ea) = entry s.scheduled i hi in
        let (b, eb) = entry s.scheduled j hj in
        let (x, fx, xi) = wf.placed.forth i a ea in
        let (y, fy, yi) = wf.placed.forth j b eb in
        let once : List (SimTimer F) = indexed s.timers b y fy (some i) in
        let (x', fx') = entry once a (
          omega (
            arith,
            get_elem?-inside s.timers a x fx,
            length-set s.timers b (record y { index = some i }),
          )) in
        let sch : List ℕ = set (set s.scheduled i b) j a in
        let same : sch ≡ swapped s.scheduled i j = sym (swapped_def s.scheduled i j a b ea eb) in
        let s1 : Simulated F = record s { scheduled = sch } in
        (
          record s1 { timers = indexed once a x' fx' (some j) },
          >>=-ok _ (load_lem s.scheduled j b eb) (
              >>=-ok _ (load_lem s.scheduled i a ea) (
                >>=-ok _ (set_index_lem s1 b (some i) y fy)
                  (set_index_lem (record s1 { timers = once }) a (some j) x' fx'))),
          record {
            placed =
                rw same (IsPlaced-swapped s.scheduled s.timers wf.placed i j a b ea eb y x' fy fx');
            timed = λ t.
                time_of-indexed once a x' fx' (some j) t
                ∙ time_of-indexed s.timers b y fy (some i) t
                ∙ wf.timed t;
            many =
                length-set once a (record x' { index = some j })
                ∙ length-set s.timers b (record y { index = some i })
                ∙ wf.many;
          },
          same,
        )

    pub push_ok :
        (s : Simulated F) (t : ℕ)
        → IsTimers s
        → IsFree s t
        → (s' : Simulated F) × (timers_push s t ≡ ok s')
          × IsTimers s'
          × (s'.scheduled ≡ s.scheduled ++ t ∷ [])
    unfolding timers_push
    push_ok s t wf (timer, found, free) =
        let n : ℕ = length s.scheduled in
        (
          record s {
            timers = indexed s.timers t timer found (some n);
            scheduled = s.scheduled ++ t ∷ [];
          },
          >>=-ok _ (set_index_lem s t (some n) timer found) refl,
          record {
            placed = IsPlaced-pushed s.scheduled s.timers t timer found wf.placed free;
            timed = λ u. time_of-indexed s.timers t timer found (some n) u ∙ wf.timed u;
            many = length-set s.timers t (record timer { index = some n }) ∙ wf.many;
          },
          refl,
        )

    timers_pop_runs :
        (s s' : Simulated F) (end t : ℕ)
        → length s.scheduled ≡ suc end
        → load {E = Limit} s.scheduled end ≡ ok t
        → set_index s t none ≡ ok s'
        → timers_pop s ≡ ok (t, record s' { scheduled = take end s'.scheduled })
    unfolding timers_pop
    timers_pop_runs s s' end t size e e' = rw (timers_pop, size) (>>=-ok _ e (>>=-ok _ e' refl))

    pub pop_ok :
        (s : Simulated F) (t : ℕ) (front : List ℕ)
        → IsTimers s
        → s.scheduled ≡ front ++ t ∷ []
        → (s' : Simulated F) × (timers_pop s ≡ ok (t, s')) × IsTimers s' × (s'.scheduled ≡ front)
    pop_ok s t front wf split =
        let n : ℕ = length front in
        let size : length s.scheduled ≡ suc n =
          ap length split ∙ length-append front (t ∷ []) ∙ omega arith in
        let last : get_elem? s.scheduled n ≡ some t =
          ap (λ (l : List ℕ). get_elem? l n) split
          ∙ ap (get_elem? (front ++ t ∷ [])) (omega arith)
          ∙ get_elem?-back front (t ∷ []) 0 in
        let (timer, found, index) = wf.placed.forth n t last in
        let rest : take n s.scheduled ≡ front = ap (take n) split ∙ take-append front (t ∷ []) in
        let timers : List (SimTimer F) = indexed s.timers t timer found none in
        (
          record s { timers = timers; scheduled = take n s.scheduled },
          timers_pop_runs s (record s { timers = timers }) n t size (load_lem s.scheduled n t last)
              (set_index_lem s t none timer found),
          record {
            placed = rw rest (IsPlaced-popped front s.timers t timer found (rw split at wf.placed));
            timed = λ u. time_of-indexed s.timers t timer found none u ∙ wf.timed u;
            many = length-set s.timers t (record timer { index = none }) ∙ wf.many;
          },
          rest,
        )

    abbrev pub timers_implements : Implements (sim_timer_heap {F = F})
    timers_implements = record {
      IsWellFormed = IsTimers;
      IsItem = IsFree;
      view = λ s. s.scheduled;
      key = key_of times;
      len-ok = λ s wf. refl;
      less-ok = less_ok;
      swap-ok = swap_ok;
      push-ok = push_ok;
      pop-ok = pop_ok;
    }
