-- ===== src/Prque/Tests.antt =====
-- Witnesses: queues of one block, with priorities on both sides of the wrap-around.
use go_fiscobcos.Base.{
  ℕ, ◌+◌, ◌-◌, ◌<◌, ◌≡◌, ◌^◌, refl, ap, true, ltb, List, [], ◌∷◌, ◌++◌, length, get_elem?, map,
  some, ok, append-nil, arith, pos,
}
use mathlib.Core.List.{Perm}
use go_fiscobcos.Prque.{
  Item, Sstack, sstack_push, sstack_pop, new, block_size, comes_before, push, peek, pop, pop_item,
  remove,
}
use go_fiscobcos.Prque.Blocks.{padded}
use go_fiscobcos.Prque.Priority.{rank, IsInWindow, comes_before_lem}
use go_fiscobcos.Prque.Stack.{items, Holds, length-padded}
use go_fiscobcos.Prque.Sortable.{IsStack-Holds}
use go_fiscobcos.Prque.Queue.{
  IsQueue, IsQueue-push, IsGreatest, pop_lem, remove_lem, sstack_pop-sstack_push,
}
use go_fiscobcos.Prque.Drain.{pair, drain, push_all, IsDescending, drain-push_all}

-- The base, the greatest int64 less 5.
abbrev pub base : ℕ
base = 2 ^ 63 - 6

abbrev pub word : base < 2 ^ 64
word = omega arith

-- A positive priority, and a negative one that the queue has behind it.
abbrev low : Item ℕ
low = record { value = 7; priority = 2 ^ 63 - 3 }

abbrev high : Item ℕ
high = record { value = 8; priority = 2 ^ 63 + 1 }

abbrev low-IsInWindow : IsInWindow base low.priority
low-IsInWindow = record { word = omega arith; near = omega arith }

abbrev high-IsInWindow : IsInWindow base high.priority
high-IsInWindow = record { word = omega arith; near = omega arith }

abbrev both : List (Item ℕ)
both = high ∷ low ∷ []

abbrev pub one_block : Sstack ℕ
one_block = record {
  set_index = true;
  size = 2;
  capacity = block_size;
  offset = 2;
  blocks = padded both 4094 ∷ [];
  active = 0;
  log = [];
}

one_block-Holds : Holds one_block both
one_block-Holds = record {
  wide = (length-padded both 4094, tt);
  room = omega arith;
  count = refl;
  free = 4094;
  filled = append-nil (padded both 4094);
  place = omega arith;
  inside = omega arith;
  edge = omega arith;
}

pub one_block-IsQueue : IsQueue base word one_block × (items one_block ≡ both)
one_block-IsQueue =
    let (wf, same) =
      IsStack-Holds base word one_block both one_block-Holds
        (high-IsInWindow, (low-IsInWindow, tt)) in
    (
      record {
        formed = wf;
        ordered = rw same (λ c pos h. let at : c ≡ 1 = omega arith in rw at (omega arith));
      },
      same,
    )

comes_before_lem_example :
    comes_before high.priority low.priority ≡ ltb (rank base low.priority) (rank base high.priority)
comes_before_lem_example =
    comes_before_lem base high.priority low.priority word high-IsInWindow low-IsInWindow

sstack_pop-sstack_push_example :
    (t u : Sstack ℕ) × (sstack_push one_block low ≡ ok t)
    × Holds t (both ++ low ∷ [])
    × (sstack_pop t ≡ ok (low, u))
    × Holds u both
sstack_pop-sstack_push_example = sstack_pop-sstack_push one_block both low one_block-Holds

IsQueue-push_example :
    (s' : Sstack ℕ) × (push one_block 9 low.priority ≡ ok s')
    × IsQueue base word s'
    × Perm (items s') (record { value = 9; priority = low.priority } ∷ items one_block)
IsQueue-push_example =
    IsQueue-push base word one_block 9 low.priority one_block-IsQueue.0 low-IsInWindow

pop_lem_example :
    (x : Item ℕ) × (s' : Sstack ℕ) × (peek one_block ≡ ok (x.value, x.priority))
    × (pop one_block ≡ ok ((x.value, x.priority), s'))
    × (pop_item one_block ≡ ok (x.value, s'))
    × IsGreatest base word x (items one_block)
    × IsQueue base word s'
    × Perm (x ∷ items s') (items one_block)
pop_lem_example =
    pop_lem base word one_block one_block-IsQueue.0 (omega (arith, ap length one_block-IsQueue.1))

remove_lem_example :
    (x : Item ℕ) × (s' : Sstack ℕ) × (remove one_block (pos 1) ≡ ok (some x, s'))
    × (get_elem? (items one_block) 1 ≡ some x)
    × IsQueue base word s'
    × Perm (x ∷ items s') (items one_block)
remove_lem_example =
    remove_lem base word one_block 1 one_block-IsQueue.0
      (omega (arith, ap length one_block-IsQueue.1))

drain-push_all_example :
    (s : Sstack ℕ) × (out : List (Item ℕ)) × (push_all (new true) (low ∷ high ∷ low ∷ []) ≡ ok s)
    × (drain 3 s ≡ ok (map pair out))
    × IsDescending base out
    × Perm out (low ∷ high ∷ low ∷ [])
drain-push_all_example =
    drain-push_all base word true (low ∷ high ∷ low ∷ [])
      (low-IsInWindow, (high-IsInWindow, (low-IsInWindow, tt)))
