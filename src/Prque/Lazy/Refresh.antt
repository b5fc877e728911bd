-- ===== src/Prque/Lazy/Refresh.antt =====
-- Refresh evaluates the estimates of the items of one stack again and leaves the other stack empty.
use mathlib.Core.List.{Perm, perm_middle}
use mathlib.Core.List.Perm
use native.Mathlib.Decide.{ℕ_discrete}
use go_fiscobcos.Base.{
  ℕ, zero, suc, ◌+◌, ◌%◌, ◌^◌, ◌<◌, ◌≡◌, ◌∙◌, refl, true, List, [], ◌∷◌, ◌++◌, length, map, ok, not,
  if◌then◌else◌, ◌-◌, Outcome, >>=-ok, IsU64, arith,
}
use go_fiscobcos.Heap.{Limit, heap_pop}
use go_fiscobcos.Heap.Array.{length-Perm}
use go_fiscobcos.Heap.Operations.{Pushed-heap_push, Taken-heap_pop}
use go_fiscobcos.Prque.{Item, Sstack, sstack, sstack_len}
use go_fiscobcos.Prque.Priority.{IsInWindow}
use go_fiscobcos.Prque.Stack.{items}
use go_fiscobcos.Prque.Sortable.{sstack_implements}
use go_fiscobcos.Prque.Queue.{IsQueue}
use go_fiscobcos.Prque.Lazy.{LazyQueue, lazy_push, with_callback, refresh_loop, refresh}

module _ {V : Type 0} where
  length-nil : (a : List (Item V)) → length a ≡ 0 → a ≡ []
  length-nil [] e = refl
  length-nil (x ∷ a) e = absurd (omega (arith, e))

module _ {V : Type 0} (base : ℕ) (word : IsU64 base) where
  -- Both stacks are heaps, `setIndex` is not nil, and `indexOffset` tells the callbacks apart.
  pub record IsLazyQueue (q : LazyQueue V) : Type 0 where
    pub first : IsQueue base word q.queue0
    pub second : IsQueue base word q.queue1
    pub called : q.set_index ≡ true
    pub offset : q.index_offset ≡ (if q.crossed then 1 else 0)

module _ {V : Type 0} (max_priority : V → ℕ → ℕ) (base : ℕ) (word : IsU64 base) where
  -- All estimates are near the base.
  abbrev pub IsBounded : Type 0
  IsBounded = (value : V) (until : ℕ) → IsInWindow base (max_priority value until)

  -- The item of a value with the estimate up to a time.
  abbrev pub estimated : ℕ → V → Item V
  estimated until value = record { value = value; priority = max_priority value until }

  -- The items of a stack with new estimates.
  abbrev pub renewed : ℕ → Sstack V → List (Item V)
  renewed until s = map (λ x. estimated until x.value) (items s)

  with_callback-ok :
      {A : Type 0} (q : LazyQueue V) (m : Outcome Limit A) (x : A)
      → q.set_index ≡ true
      → m ≡ ok x
      → with_callback q m ≡ ok x
  with_callback-ok q m x called e = rw (e, called) refl

  lazy_push_lem :
      (q : LazyQueue V) (value : V)
      → IsBounded
      → q.set_index ≡ true
      → IsQueue base word q.queue1
      → (s : Sstack V) × (lazy_push max_priority q value ≡ ok (record q { queue1 = s }))
        × IsQueue base word s
        × Perm (items s) (estimated q.max_until value ∷ items q.queue1)
  unfolding lazy_push
  lazy_push_lem q value near called ready =
      let (s, e, ready', perm) =
        Pushed-heap_push sstack (sstack_implements base word) q.queue1 _ ready
          (near value q.max_until) in
      (s, >>=-ok _ (with_callback-ok q _ s called e) refl, ready', perm)

  loop_stops :
      (fuel : ℕ) (q : LazyQueue V)
      → sstack_len q.queue0 ≡ 0
      → refresh_loop max_priority (suc fuel) q ≡ ok q
  unfolding refresh_loop
  loop_stops fuel q e = ground (arith, e)

  loop_moves :
      (fuel : ℕ) (q q' : LazyQueue V) (x : Item V) (s : Sstack V)
      → 0 < sstack_len q.queue0
      → with_callback q (heap_pop sstack q.queue0) ≡ ok (x, s)
      → lazy_push max_priority (record q { queue0 = s }) x.value ≡ ok q'
      → refresh_loop max_priority (suc fuel) q ≡ refresh_loop max_priority fuel q'
  unfolding refresh_loop
  loop_moves fuel q q' x s more e e' = ground (arith, more, e, e')

  refresh_loop_lem :
      (fuel : ℕ) (q : LazyQueue V)
      → length (items q.queue0) < fuel
      → IsBounded
      → IsLazyQueue base word q
      → (s0 s1 : Sstack V) × (refresh_loop max_priority fuel q
          ≡ ok (record q { queue0 = s0; queue1 = s1 }))
        × IsQueue base word s0
        × IsQueue base word s1
        × (items s0 ≡ [])
        × Perm (items s1) (renewed q.max_until q.queue0 ++ items q.queue1)
  refresh_loop_lem zero q enough near ready = absurd (omega arith)
  refresh_loop_lem (suc fuel) q enough near ready =
      let len : sstack_len q.queue0 ≡ length (items q.queue0) = ready.first.formed.held.count in
      elim (ℕ_discrete (length (items q.queue0)) 0) [
        | yes over ↦
            let none : items q.queue0 ≡ [] = length-nil (items q.queue0) over in
            (
              q.queue0,
              q.queue1,
              loop_stops fuel q (len ∙ over),
              ready.first,
              ready.second,
              none,
              rw none (Perm.refl (items q.queue1)),
            )
        | no more ↦
            let (x, s, popped, root, ready0, perm) =
              Taken-heap_pop sstack (sstack_implements base word) q.queue0 ready.first
                (omega (arith, more)) in
            let q1 : LazyQueue V = record q { queue0 = s } in
            let (t, pushed, ready1, perm1) =
              lazy_push_lem q1 x.value near ready.called ready.second in
            let q2 : LazyQueue V = record q { queue0 = s; queue1 = t } in
            let (s0, s1, e, r0, r1, none, perm2) =
              refresh_loop_lem fuel q2 (omega (arith, enough, length-Perm perm)) near (record {
                first = ready0;
                second = ready1;
                called = ready.called;
                offset = ready.offset;
              }) in
            let renew = Perm.map (λ (y : Item V). estimated q.max_until y.value) perm in
            (
              s0,
              s1,
              loop_moves fuel q q2 x s (omega (arith, more, len))
                    (with_callback-ok q _ (x, s) ready.called popped) pushed
                  ∙ e,
              r0,
              r1,
              none,
              Perm.trans perm2 (
                  Perm.trans (Perm.append_left (renewed q.max_until s) perm1) (
                    Perm.trans (perm_middle (renewed q.max_until s) (items q.queue1))
                      (Perm.append_right (items q.queue1) renew))),
            )
      ]

  -- On a lazy queue in order whose setIndex is not nil, if all estimates lie within 2 ^ 63
  -- above a base, Refresh succeeds and ends with a queue in order: queue[0] holds the values of
  -- the old queue[0], with their estimates up to now plus the period, and the items of the old
  -- queue[1] as they were, queue[1] is empty, the callbacks and the offset of the indices have
  -- changed places, and the time until which the estimates hold is two periods after now.
  pub refresh_lem :
      (q : LazyQueue V) (now : ℕ)
      → IsBounded
      → IsLazyQueue base word q
      → (q' : LazyQueue V) × (refresh max_priority q now ≡ ok q')
        × IsLazyQueue base word q'
        × (items q'.queue1 ≡ [])
        × Perm (items q'.queue0) (renewed ((now + q.period) % 2 ^ 64) q.queue0 ++ items q.queue1)
        × (q'.crossed ≡ not q.crossed)
        × (q'.max_until ≡ ((now + q.period) % 2 ^ 64 + q.period) % 2 ^ 64)
  unfolding refresh
  refresh_lem q now near ready =
      let len : sstack_len q.queue0 ≡ length (items q.queue0) = ready.first.formed.held.count in
      let (s0, s1, e, r0, r1, none, perm) =
        refresh_loop_lem (sstack_len q.queue0 + 1)
          (record q { max_until = (now + q.period) % 2 ^ 64 }) (omega (arith, len)) near
          (record {
            first = ready.first;
            second = ready.second;
            called = ready.called;
            offset = ready.offset;
          }) in
      let flipped : 1 - q.index_offset ≡ (if not q.crossed then 1 else 0) =
        ground (arith, ready.offset) in
      (
        _,
        >>=-ok _ e refl,
        record { first = r1; second = r0; called = ready.called; offset = flipped },
        none,
        perm,
        refl,
        refl,
      )
