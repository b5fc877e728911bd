-- ===== src/Prque/Queue.antt =====
-- The queue keeps its items in order and returns the one with the greatest priority.
use mathlib.Core.List.{Perm, Mem}
use mathlib.Core.Logic.{∥∥₁_elim}
use native.Mathlib.Bridge.{le_prop}
use go_fiscobcos.Base.{
  ℕ, ◌≤◌, ◌<◌, ◌≡◌, refl, List, [], ◌∷◌, ◌++◌, length, get_elem?, some, ok, >>=-ok, All-get_elem?,
  get_elem?-inside, IsU64, pos, arith,
}
use go_fiscobcos.Heap.Array.{get_elem?-Mem}
use go_fiscobcos.Heap.Order.{root_least}
use go_fiscobcos.Heap.Operations.{IsReady, Pushed-heap_push, Taken-heap_pop, Taken-heap_remove}
use go_fiscobcos.Prque.{
  Item, Sstack, sstack, sstack_push, sstack_pop, push, peek, pop, pop_item, remove,
}
use go_fiscobcos.Prque.Priority.{rank, IsInWindow}
use go_fiscobcos.Prque.Stack.{items, Holds, cell_held}
use go_fiscobcos.Prque.Ends.{sstack_push_lem, sstack_pop_lem}
use go_fiscobcos.Prque.Sortable.{sstack_implements, key}

-- On a stack of blocks that holds a list of items, Push leaves the list with the item at its
-- end, and Pop then returns that item and leaves the list as it was, also where a block is
-- added or left.
pub sstack_pop-sstack_push :
    {V : Type 0} (s : Sstack V) (a : List (Item V)) (x : Item V)
    → Holds s a
    → (t u : Sstack V) × (sstack_push s x ≡ ok t)
      × Holds t (a ++ x ∷ [])
      × (sstack_pop t ≡ ok (x, u))
      × Holds u a
sstack_pop-sstack_push s a x held =
    let (t, e, held1) = sstack_push_lem s a x held in
    let (u, e', held2) = sstack_pop_lem t a x held1 in (t, u, e, held1, e', held2)

module _ {V : Type 0} (base : ℕ) (word : IsU64 base) where
  -- The stack is a heap, of priorities within 2^63 above the base.
  abbrev pub IsQueue : Sstack V → Type 0
  IsQueue s = IsReady sstack (sstack_implements base word) s

  -- No item has a greater priority.
  abbrev pub IsGreatest : Item V → List (Item V) → Type 0
  IsGreatest x a = (y : Item V) → Mem y a → rank base y.priority ≤ rank base x.priority

  -- Push of a value whose priority lies within 2 ^ 63 above the base succeeds on a queue in
  -- order, keeps its stack well formed and a heap, and adds just that item.
  pub IsQueue-push :
      (s : Sstack V) (value : V) (priority : ℕ)
      → IsQueue s
      → IsInWindow base priority
      → (s' : Sstack V) × (push s value priority ≡ ok s')
        × IsQueue s'
        × Perm (items s') (record { value = value; priority = priority } ∷ items s)
  unfolding push
  IsQueue-push s value priority ready near =
      Pushed-heap_push sstack (sstack_implements base word) s _ ready near

  root-IsGreatest :
      (s : Sstack V) (x : Item V)
      → IsQueue s
      → get_elem? (items s) 0 ≡ some x
      → IsGreatest x (items s)
  root-IsGreatest s x ready root y member = ∥∥₁_elim member le_prop (λ m.
      let a : List (Item V) = items s in
      let (i, e) = get_elem?-Mem a y m in
      let inside : i < length a = get_elem?-inside a i y e in
      let below = root_least (key base word) (length a) a i ready.ordered inside in
      let px = All-get_elem? _ a 0 x ready.formed.ranked root in
      let py = All-get_elem? _ a i y ready.formed.ranked e in
      ground (arith, below, root, e, px.near, py.near))

  peek_root :
      (s : Sstack V) (x : Item V)
      → IsQueue s
      → get_elem? (items s) 0 ≡ some x
      → peek s ≡ ok (x.value, x.priority)
  unfolding peek
  peek_root s x ready root =
      let inside : 0 < length (items s) = get_elem?-inside (items s) 0 x root in
      >>=-ok _
        (>>=-ok _ (cell_held s (items s) ready.formed.held 0 0 0 x refl (omega arith) inside root)
          refl)
        refl

  -- On a queue in order that is not empty, Pop and PopItem succeed and return what Peek shows,
  -- an item that no other has a greater priority than, and leave a queue in order with just the
  -- other items.
  pub pop_lem :
      (s : Sstack V)
      → IsQueue s
      → 0 < length (items s)
      → (x : Item V) × (s' : Sstack V) × (peek s ≡ ok (x.value, x.priority))
        × (pop s ≡ ok ((x.value, x.priority), s'))
        × (pop_item s ≡ ok (x.value, s'))
        × IsGreatest x (items s)
        × IsQueue s'
        × Perm (x ∷ items s') (items s)
  unfolding pop pop_item
  pop_lem s ready some_item =
      let (x, s', e, root, ready', perm) =
        Taken-heap_pop sstack (sstack_implements base word) s ready some_item in
      (
        x,
        s',
        peek_root s x ready root,
        >>=-ok _ e refl,
        >>=-ok _ e refl,
        root-IsGreatest s x ready root,
        ready',
        perm,
      )

  -- On a queue in order, Remove of an index below its size returns the item at that index of
  -- the stack and leaves a queue in order with just the other items.
  pub remove_lem :
      (s : Sstack V) (i : ℕ)
      → IsQueue s
      → i < length (items s)
      → (x : Item V) × (s' : Sstack V) × (remove s (pos i) ≡ ok (some x, s'))
        × (get_elem? (items s) i ≡ some x)
        × IsQueue s'
        × Perm (x ∷ items s') (items s)
  unfolding remove
  remove_lem s i ready inside =
      let (x, s', e, here, ready', perm) =
        Taken-heap_remove sstack (sstack_implements base word) s i ready inside in
      (x, s', >>=-ok _ e refl, here, ready', perm)
