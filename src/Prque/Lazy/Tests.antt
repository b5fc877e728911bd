-- ===== src/Prque/Lazy/Tests.antt =====
-- Witnesses: a lazy queue whose estimates are all 2 ^ 63 - 3, with two items.
use mathlib.Core.List.{Perm}
use go_fiscobcos.Base.{
  length, ap, ◌<◌, ℕ, ◌+◌, ◌-◌, ◌%◌, ◌^◌, ◌≡◌, true, false, refl, ◌∷◌, some, get_elem?, pos, panic,
  [], ◌++◌, ok, arith,
}
use go_fiscobcos.Heap.{heap_push, up, up_loop}
use go_fiscobcos.Prque.{Item, Sstack, new_sstack, sstack_push, new_block}
use go_fiscobcos.Prque.Stack.{items}
use go_fiscobcos.Prque.Drain.{IsQueue-new}
use go_fiscobcos.Prque.Tests.{base, word, one_block, one_block-IsQueue}
use go_fiscobcos.Prque.Lazy.{LazyQueue, refresh, lazy_push, lazy_remove, with_chosen}
use go_fiscobcos.Prque.Lazy.Refresh.{IsLazyQueue, renewed, refresh_lem}
use go_fiscobcos.Prque.Lazy.Remove.{remove-reported}

abbrev constant : ℕ → ℕ → ℕ
constant value until = 2 ^ 63 - 3

abbrev lazy_queue : LazyQueue ℕ
lazy_queue = record {
  set_index = true;
  queue0 = one_block;
  queue1 = new_sstack true [];
  crossed = true;
  pop_queue = new_sstack false [];
  period = 10;
  max_until = 30;
  index_offset = 1;
}

lazy_queue-IsLazyQueue : IsLazyQueue base word lazy_queue
lazy_queue-IsLazyQueue = record {
  first = one_block-IsQueue.0;
  second = (IsQueue-new base word true).0;
  called = refl;
  offset = refl;
}

refresh_lem_example :
    (q' : LazyQueue ℕ) × (refresh constant lazy_queue 25 ≡ ok q')
    × IsLazyQueue base word q'
    × (items q'.queue1 ≡ [])
    × Perm
        (items q'.queue0)
        (renewed constant base word ((25 + 10) % 2 ^ 64) one_block ++ items lazy_queue.queue1)
    × (q'.crossed ≡ false)
    × (q'.max_until ≡ ((25 + 10) % 2 ^ 64 + 10) % 2 ^ 64)
refresh_lem_example =
    refresh_lem constant base word lazy_queue 25
      (λ value until. record { word = omega arith; near = omega arith }) lazy_queue-IsLazyQueue

two_items : 1 < length (items one_block)
two_items =
    let two : length (items one_block) ≡ 2 = ap length one_block-IsQueue.1 in omega (arith, two)

-- The item at 1 of queue[0], which was reported with the index 3.
remove-reported_example :
    (x : Item ℕ) × (s : Sstack ℕ) × (lazy_remove 0 lazy_queue (pos 3)
      ≡ ok (x.value, with_chosen lazy_queue false s))
    × (get_elem? (items one_block) 1 ≡ some x)
    × IsLazyQueue base word (with_chosen lazy_queue false s)
    × Perm (x ∷ items s) (items one_block)
remove-reported_example =
    remove-reported base word 0 lazy_queue false 1 3 lazy_queue-IsLazyQueue two_items refl

-- Without `setIndex`, Push panics.
push_nil :
    lazy_push constant (record lazy_queue { set_index = false; queue0 = new_sstack true [] }) 7
    ≡ panic
unfolding lazy_push heap_push up up_loop sstack_push new_block
push_nil = refl
