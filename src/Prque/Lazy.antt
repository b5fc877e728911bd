-- ===== src/Prque/Lazy.antt =====
-- common/prque/lazyqueue.go: a queue of values whose priorities are evaluated on demand, over two
-- stacks in the order of estimates. The callbacks of the stacks call `setIndex`, which panics where it
-- is nil, also where the stack has a callback. The callbacks `priority` and `max_priority` are functions of the
-- value and a time; the time of the clock is an argument of the methods that read it. `nil` is the
-- nil value of an interface.
pub mod Refresh
pub mod Remove
mod Tests
use go_fiscobcos.Base.{
  ℕ, zero, suc, ◌+◌, ◌-◌, ◌*◌, ◌/◌, ◌%◌, ◌^◌, Bool, true, false, not, ◌&&◌, ◌||◌, List, [], ◌∷◌,
  ◌++◌, length, map, ltb, ◌==◌, if◌then◌else◌, Option, none, some, Outcome, ok, err, panic, ◌>>=◌,
  or_panic, ℤ, pos, negsuc,
}
use go_fiscobcos.Heap.{Limit, out_of_fuel, heap_push, heap_pop, heap_remove}
use go_fiscobcos.Prque.{Item, Sstack, new_sstack, sstack, sstack_len, cell}

-- The callback of `queue0` is setIndex1, and the one of `queue1` setIndex0, where `crossed` holds,
-- otherwise the other way round. `set_index` says that there is a callback.
pub record LazyQueue (V : Type 0) : Type 0 where
  pub set_index : Bool
  pub queue0 : Sstack V
  pub queue1 : Sstack V
  pub crossed : Bool
  pub pop_queue : Sstack V
  pub period : ℕ
  pub max_until : ℕ
  pub index_offset : ℕ

-- setIndex0 and setIndex1 translate the indices in the stacks; -1 is `none`.
abbrev pub set_index0 : Option ℕ → Option ℕ
set_index0 none = none
set_index0 (some i) = some (i + i)

abbrev pub set_index1 : Option ℕ → Option ℕ
set_index1 none = none
set_index1 (some i) = some (i + i + 1)

-- Signed order of int64 values.
abbrev pub greater : ℕ → ℕ → Bool
greater p q = ltb ((q + 2 ^ 63) % 2 ^ 64) ((p + 2 ^ 63) % 2 ^ 64)

module _ {V : Type 0} where
  abbrev pub lazy_reset : LazyQueue V → LazyQueue V
  lazy_reset q = record q {
    queue0 = new_sstack true [];
    queue1 = new_sstack true [];
    crossed = false;
  }

  abbrev pub lazy_empty : LazyQueue V → Bool
  lazy_empty q = (sstack_len q.queue0 == 0) && (sstack_len q.queue1 == 0)

  abbrev pub lazy_size : LazyQueue V → ℕ
  lazy_size q = sstack_len q.queue0 + sstack_len q.queue1

  -- The priority of the first item.
  abbrev pub first_priority : Sstack V → Outcome Limit ℕ
  first_priority s = cell s 0 0 >>= λ x. or_panic x >>= λ item. ok item.priority

  -- Which stack has the item with the greatest estimate; `none` for -1.
  pub peek_index : LazyQueue V → Outcome Limit (Option Bool)
  peek_index q =
      if sstack_len q.queue0 == 0
      then ok (if sstack_len q.queue1 == 0 then none else some true)
      else if sstack_len q.queue1 == 0
      then ok (some false)
      else (first_priority q.queue1 >>= λ p.
          first_priority q.queue0 >>= λ r. ok (some (greater p r)))

  -- The stack `queue[1]` or `queue[0]`.
  abbrev pub chosen : LazyQueue V → Bool → Sstack V
  chosen q b = if b then q.queue1 else q.queue0

  abbrev pub with_chosen : LazyQueue V → Bool → Sstack V → LazyQueue V
  with_chosen q b s = if b then record q { queue1 = s } else record q { queue0 = s }

  -- The index that the callback of a stack hands on to `setIndex`.
  abbrev pub reported : LazyQueue V → Bool → Option ℕ → Option ℕ
  reported q b i = if (if b then q.crossed else not q.crossed) then set_index0 i else set_index1 i

  -- A call on one of the two stacks that ends with a call of its callback.
  abbrev pub with_callback {ℓ} : {A : Type ℓ} → LazyQueue V → Outcome Limit A → Outcome Limit A
  with_callback q m = m >>= λ x. if q.set_index then ok x else panic

  -- `index&1 ^ indexOffset` and `index>>1`.
  pub lazy_remove : V → LazyQueue V → ℤ → Outcome Limit (V × LazyQueue V)
  lazy_remove nil q (negsuc i) = ok (nil, q)
  lazy_remove nil q (pos i) =
      let b = (i % 2 + q.index_offset) % 2 == 1 in
      with_callback q (heap_remove sstack (chosen q b) (i / 2)) >>= λ (x, s).
      ok (x.value, with_chosen q b s)

  module _ (max_priority : V → ℕ → ℕ) where
    pub lazy_push : LazyQueue V → V → Outcome Limit (LazyQueue V)
    lazy_push q value =
        with_callback q (
          heap_push sstack q.queue1
            (record { value = value; priority = max_priority value q.max_until }))
        >>= λ s. ok (record q { queue1 = s })

    pub update : V → LazyQueue V → ℤ → Outcome Limit (LazyQueue V)
    unfolding lazy_remove lazy_push
    update nil q index = lazy_remove nil q index >>= λ (value, q'). lazy_push q' value

    -- All of `queue[0]` goes to `queue[1]`.
    pub refresh_loop : ℕ → LazyQueue V → Outcome Limit (LazyQueue V)
    unfolding lazy_push
    refresh_loop zero q = err out_of_fuel
    refresh_loop (suc fuel) q = elim (sstack_len q.queue0 == 0) [
      | true ↦ ok q
      | false ↦ with_callback q (heap_pop sstack q.queue0) >>= λ (x, s).
          lazy_push (record q { queue0 = s }) x.value >>= λ q'. refresh_loop fuel q'
    ]

    pub refresh : LazyQueue V → ℕ → Outcome Limit (LazyQueue V)
    unfolding refresh_loop
    refresh q now =
        refresh_loop (sstack_len q.queue0 + 1) (record q { max_until = (now + q.period) % 2 ^ 64 })
        >>= λ q'. ok (record q' {
          queue0 = q'.queue1;
          queue1 = q'.queue0;
          crossed = not q'.crossed;
          index_offset = 1 - q'.index_offset;
          max_until = (q'.max_until + q'.period) % 2 ^ 64;
        })

    pub new_lazy_queue : Bool → ℕ → ℕ → Outcome Limit (LazyQueue V)
    unfolding refresh
    new_lazy_queue set_index now period =
        refresh
          (lazy_reset (record {
            set_index = set_index;
            queue0 = new_sstack true [];
            queue1 = new_sstack true [];
            crossed = false;
            pop_queue = new_sstack false [];
            period = period;
            max_until = 0;
            index_offset = 0;
          }))
          now

    -- The rest of popQueue goes back.
    pub return_loop : ℕ → LazyQueue V → Outcome Limit (LazyQueue V)
    unfolding lazy_push
    return_loop zero q = err out_of_fuel
    return_loop (suc fuel) q = elim (sstack_len q.pop_queue == 0) [
      | true ↦ ok q
      | false ↦ heap_pop sstack q.pop_queue >>= λ (x, s).
          lazy_push (record q { pop_queue = s }) x.value >>= λ q'. return_loop fuel q'
    ]

    -- `nextIndex == -1 || q.queue[nextIndex].blocks[0][0].priority < q.popQueue.blocks[0][0].priority`
    abbrev pub is_settled : LazyQueue V → Option Bool → Outcome Limit Bool
    is_settled q none = ok true
    is_settled q (some b) =
        first_priority (chosen q b) >>= λ p. first_priority q.pop_queue >>= λ r. ok (greater r p)

    module _ {C : Type 0} (callback : C → V → ℕ → C × Bool) where
      -- Items that no estimate exceeds go to the callback, until it says stop, which is returned.
      pub settle_loop : ℕ → LazyQueue V → Option Bool → C → Outcome Limit (C × Bool × LazyQueue V)
      unfolding return_loop
      settle_loop zero q next c = err out_of_fuel
      settle_loop (suc fuel) q next c = elim (sstack_len q.pop_queue == 0) [
        | true ↦ ok (c, false, q)
        | false ↦ is_settled q next >>= λ settled. elim settled [
          | false ↦ ok (c, false, q)
          | true ↦ heap_pop sstack q.pop_queue >>= λ (x, s).
              elim (callback c x.value x.priority).1 [
                | true ↦
                    settle_loop fuel (record q { pop_queue = s }) next
                      (callback c x.value x.priority).0
                | false ↦
                    (return_loop (sstack_len s + 1) (record q { pop_queue = s }) >>= λ q'.
                    ok ((callback c x.value x.priority).0, true, q'))
              ]
        ]
      ]

      module _ (priority : V → ℕ → ℕ) where
        pub pop_loop : ℕ → LazyQueue V → ℕ → Option Bool → C → Outcome Limit (C × LazyQueue V)
        unfolding settle_loop peek_index
        pop_loop zero q now next c = err out_of_fuel
        pop_loop (suc fuel) q now none c = ok (c, q)
        pop_loop (suc fuel) q now (some b) c =
            with_callback q (heap_pop sstack (chosen q b)) >>= λ (x, s).
            heap_push sstack q.pop_queue
              (record { value = x.value; priority = priority x.value now })
            >>= λ p.
                let q1 = record (with_chosen q b s) { pop_queue = p } in
                peek_index q1 >>= λ next'.
                settle_loop (sstack_len p + 1) q1 next' c >>= λ (c', stopped, q2). elim stopped [
                  | true ↦ ok (c', q2)
                  | false ↦ pop_loop fuel q2 now next' c'
                ]

        pub multi_pop : LazyQueue V → ℕ → C → Outcome Limit (C × LazyQueue V)
        unfolding pop_loop peek_index
        multi_pop q now c = peek_index q >>= λ next. pop_loop (lazy_size q + 1) q now next c

    module _ (priority : V → ℕ → ℕ) where
      pub lazy_pop : V → LazyQueue V → ℕ → Outcome Limit ((V × ℕ) × LazyQueue V)
      unfolding multi_pop
      lazy_pop nil q now = multi_pop (λ c value p. ((value, p), false)) priority q now (nil, 0)

      pub lazy_pop_item : V → LazyQueue V → ℕ → Outcome Limit (V × LazyQueue V)
      unfolding lazy_pop
      lazy_pop_item nil q now = lazy_pop nil q now >>= λ (x, q'). ok (x.0, q')
