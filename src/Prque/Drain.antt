-- ===== src/Prque/Drain.antt =====
-- What a queue returns until it is empty.
use mathlib.Core.List.{Perm, Mem, mem-cons_of_mem, perm_middle}
use mathlib.Core.List.Perm
use go_fiscobcos.Base.{
  ℕ, zero, suc, ◌≤◌, ◌≡◌, refl, ap, Bool, List, [], ◌∷◌, ◌++◌, length, map, Outcome, ok, panic,
  ◌>>=◌, >>=-ok, All, IsU64, append-nil, arith,
}
use go_fiscobcos.Heap.{Limit}
use go_fiscobcos.Heap.Operations.{heap_pop_empty}
use go_fiscobcos.Heap.Array.{length-Perm}
use go_fiscobcos.Prque.{Item, Sstack, sstack, new, new_block, block_size, push, pop}
use go_fiscobcos.Prque.Priority.{rank, IsInWindow}
use go_fiscobcos.Prque.Stack.{items, Holds}
use go_fiscobcos.Prque.Ends.{length-new_block}
use go_fiscobcos.Prque.Sortable.{sstack_implements, IsStack-Holds}
use go_fiscobcos.Prque.Queue.{IsQueue, IsQueue-push, pop_lem}

module _ {V : Type 0} where
  abbrev pub pair : Item V → V × ℕ
  pair x = (x.value, x.priority)

  -- The values and priorities of `n` calls of Pop.
  pub drain : ℕ → Sstack V → Outcome Limit (List (V × ℕ))
  drain zero s = ok []
  drain (suc n) s = pop s >>= λ (x, s'). drain n s' >>= λ rest. ok (x ∷ rest)

  -- Calls of Push.
  pub push_all : Sstack V → List (Item V) → Outcome Limit (Sstack V)
  push_all s [] = ok s
  push_all s (x ∷ xs) = push s x.value x.priority >>= λ s'. push_all s' xs

  unfoldable pub IsDescending : ℕ → List (Item V) → Type 0
  IsDescending base [] = Unit
  IsDescending base (x ∷ xs) =
      ((y : Item V) → Mem y xs → rank base y.priority ≤ rank base x.priority) × IsDescending base xs

module _ {V : Type 0} (base : ℕ) (word : IsU64 base) where
  empty_perm : (a : List (Item V)) → length a ≡ 0 → Perm [] a
  empty_perm [] e = Perm.refl []
  empty_perm (x ∷ a) e = absurd (omega (arith, e))

  drain_lem :
      (n : ℕ) (s : Sstack V)
      → IsQueue base word s
      → length (items s) ≡ n
      → (out : List (Item V)) × (drain n s ≡ ok (map pair out))
        × IsDescending base out
        × Perm out (items s)
  unfolding drain IsDescending
  drain_lem zero s ready e = ([], refl, tt, empty_perm (items s) e)
  drain_lem (suc n) s ready e =
      let (x, s', seen, taken, item, greatest, ready', perm) =
        pop_lem base word s ready (omega (arith, e)) in
      let (out, rest, order, same) = drain_lem n s' ready' (omega (arith, e, length-Perm perm)) in
      (
        x ∷ out,
        >>=-ok _ taken (>>=-ok _ rest refl),
        (
          λ y m.
              greatest y
                (Perm.subset perm y (Perm.subset (Perm.cons x same) y (mem-cons_of_mem x m))),
          order,
        ),
        Perm.trans (Perm.cons x same) perm,
      )

  push_all_lem :
      (s : Sstack V) (xs : List (Item V))
      → IsQueue base word s
      → All (λ x. IsInWindow base x.priority) xs
      → (s' : Sstack V) × (push_all s xs ≡ ok s')
        × IsQueue base word s'
        × Perm (items s') (xs ++ items s)
  unfolding push_all
  push_all_lem s [] ready h = (s, refl, ready, Perm.refl (items s))
  push_all_lem s (x ∷ xs) ready h =
      let (s1, e, ready1, perm1) = IsQueue-push base word s x.value x.priority ready h.0 in
      let (s2, e', ready2, perm2) = push_all_lem s1 xs ready1 h.1 in
      (
        s2,
        >>=-ok _ e e',
        ready2,
        Perm.trans perm2 (Perm.trans (Perm.append_left xs perm1) (perm_middle xs (items s))),
      )

  pub Holds-new : (set_index : Bool) → Holds {V = V} (new set_index) []
  unfolding new_block
  Holds-new set_index = record {
    wide = (length-new_block V, tt);
    room = omega arith;
    count = refl;
    free = block_size;
    filled = append-nil new_block;
    place = omega arith;
    inside = omega arith;
    edge = omega arith;
  }

  pub IsQueue-new :
      (set_index : Bool)
      → IsQueue base word (new {V = V} set_index) × (items {V = V} (new set_index) ≡ [])
  IsQueue-new set_index =
      let (wf, none) = IsStack-Holds base word (new set_index) [] (Holds-new set_index) tt in
      (record { formed = wf; ordered = λ c pos h. absurd (omega (arith, ap length none)) }, none)

  -- With int64 priorities that lie within 2 ^ 63 above some base, modulo 2 ^ 64, Push of the
  -- items of any list to a new queue and then Pop as many times succeed, and return the items
  -- of the list, each as often as it is there, in descending order of the priorities.
  pub drain-push_all :
      (set_index : Bool) (xs : List (Item V))
      → All (λ x. IsInWindow base x.priority) xs
      → (s : Sstack V) × (out : List (Item V)) × (push_all (new set_index) xs ≡ ok s)
        × (drain (length xs) s ≡ ok (map pair out))
        × IsDescending base out
        × Perm out xs
  drain-push_all set_index xs near =
      let (fresh, none) = IsQueue-new set_index in
      let (s, pushed, ready, perm) = push_all_lem (new set_index) xs fresh near in
      let all : Perm (items s) xs = rw append-nil at (rw none at perm) in
      let (out, drained, order, same) = drain_lem (length xs) s ready (length-Perm all) in
      (s, out, pushed, drained, order, Perm.trans same all)

  -- x
  pub pop_empty : (s : Sstack V) → IsQueue base word s → length (items s) ≡ 0 → pop s ≡ panic
  unfolding pop
  pop_empty s ready none =
      ap (λ m. m >>= λ (x, s'). ok ((x.value, x.priority), s'))
        (heap_pop_empty sstack (sstack_implements base word) s ready.formed none)
