-- ===== src/Prque/Lazy/Remove.antt =====
-- Remove of an index that was reported to `setIndex`: in a queue in order, and after Reset.
use mathlib.Core.List.{Perm}
use go_fiscobcos.Base.{
  ◌>>=◌, ◌∙◌, panic, [], ℕ, ◌+◌, ◌/◌, ◌%◌, ◌<◌, ◌≡◌, refl, ap, Bool, true, false, not, ◌∷◌, length,
  ◌==◌, if◌then◌else◌, get_elem?, Option, none, some, ok, IsU64, pos, arith,
}
use go_fiscobcos.Heap.{heap_remove}
use go_fiscobcos.Heap.Operations.{heap_remove_empty, Taken-heap_remove}
use go_fiscobcos.Prque.{new_sstack, Item, Sstack, sstack}
use go_fiscobcos.Prque.Stack.{items}
use go_fiscobcos.Prque.Sortable.{sstack_implements}
use go_fiscobcos.Prque.Queue.{IsQueue}
use go_fiscobcos.Prque.Lazy.{
  LazyQueue, lazy_reset, with_callback, chosen, with_chosen, reported, lazy_remove, set_index0,
  set_index1,
}
use go_fiscobcos.Prque.Lazy.Refresh.{IsLazyQueue}

some_inj : {m n : ℕ} → some m ≡ some n → m ≡ n
some_inj e = ap (λ (x : Option ℕ). elim x [ none ↦ 0 | some k ↦ k ]) e

-- The lowest bit of the reported index with the offset is the number of the stack, and the others
-- are the index in it.
bits :
    (b crossed : Bool) (offset i j : ℕ)
    → offset ≡ (if crossed then 1 else 0)
    → (if (if b then crossed else not crossed) then set_index0 (some i) else set_index1 (some i))
      ≡ some j
    → (((j % 2 + offset) % 2 == 1) ≡ b) × (j / 2 ≡ i)
bits true true offset i j o e = (ground (arith, o, some_inj e), omega (arith, some_inj e))
bits true false offset i j o e = (ground (arith, o, some_inj e), omega (arith, some_inj e))
bits false true offset i j o e = (ground (arith, o, some_inj e), omega (arith, some_inj e))
bits false false offset i j o e = (ground (arith, o, some_inj e), omega (arith, some_inj e))

module _ {V : Type 0} (base : ℕ) (word : IsU64 base) where
  remove_runs :
      (nil : V) (q : LazyQueue V) (b : Bool) (i j : ℕ) (x : Item V) (s : Sstack V)
      → q.set_index ≡ true
      → ((j % 2 + q.index_offset) % 2 == 1) ≡ b
      → j / 2 ≡ i
      → heap_remove sstack (chosen q b) i ≡ ok (x, s)
      → lazy_remove nil q (pos j) ≡ ok (x.value, with_chosen q b s)
  unfolding lazy_remove
  remove_runs nil q b i j x s called which at e = rw (which, at, e, called) refl

  -- On a lazy queue in order, Remove of the index that the callback of either stack hands on to
  -- setIndex for the item at some place of that stack returns the value of that item, and
  -- leaves a queue in order that lacks just that item.
  pub remove-reported :
      (nil : V) (q : LazyQueue V) (b : Bool) (i j : ℕ)
      → IsLazyQueue base word q
      → i < length (items (chosen q b))
      → reported q b (some i) ≡ some j
      → (x : Item V) × (s : Sstack V) × (lazy_remove nil q (pos j)
          ≡ ok (x.value, with_chosen q b s))
        × (get_elem? (items (chosen q b)) i ≡ some x)
        × IsLazyQueue base word (with_chosen q b s)
        × Perm (x ∷ items s) (items (chosen q b))
  remove-reported nil q b i j ready inside index =
      let (which, at) = bits b q.crossed q.index_offset i j ready.offset index in
      let (x, s, e, here, ready', perm) =
        Taken-heap_remove sstack (sstack_implements base word) (chosen q b) i (both q b ready)
          inside in
      (
        x,
        s,
        remove_runs nil q b i j x s ready.called which at e,
        here,
        kept q b s ready ready',
        perm,
      )
    where
      both : (q : LazyQueue V) (b : Bool) → IsLazyQueue base word q → IsQueue base word (chosen q b)
      both q true ready = ready.second
      both q false ready = ready.first

      kept :
          (q : LazyQueue V) (b : Bool) (s : Sstack V)
          → IsLazyQueue base word q
          → IsQueue base word s
          → IsLazyQueue base word (with_chosen q b s)
      kept q true s ready new = record {
        first = ready.first;
        second = new;
        called = ready.called;
        offset = ready.offset;
      }
      kept q false s ready new = record {
        first = new;
        second = ready.second;
        called = ready.called;
        offset = ready.offset;
      }

-- Reset leaves the offset of the indices, so that Remove looks for the index that was reported for
-- the first item behind it, 1 of queue[1], in queue[0], which is empty.
lazy_remove_after_reset :
    {V : Type 0} (nil : V) (base : ℕ) (word : IsU64 base) (q : LazyQueue V) (s : Sstack V)
    → q.index_offset ≡ 1
    → lazy_remove nil (record (lazy_reset q) { queue1 = s }) (pos 1) ≡ panic
unfolding lazy_remove
lazy_remove_after_reset nil base word q s offset =
    let even : ((1 % 2 + q.index_offset) % 2 == 1) ≡ false = ground (arith, offset) in
    ap
      (λ (b : Bool).
        with_callback (record (lazy_reset q) { queue1 = s })
          (heap_remove sstack (chosen (record (lazy_reset q) { queue1 = s }) b) (1 / 2))
        >>= λ (x, t). ok (x.value, with_chosen (record (lazy_reset q) { queue1 = s }) b t))
      even
    ∙ ap
        (λ m. with_callback (record (lazy_reset q) { queue1 = s }) m >>= λ (x, t).
          ok (x.value, with_chosen (record (lazy_reset q) { queue1 = s }) false t))
        (heap_remove_empty sstack (sstack_implements base word) (new_sstack true []) (1 / 2) refl)
