-- ===== src/Prque/Sortable.antt =====
-- The stack as an implementation of heap.Interface for priorities within a window.
use go_fiscobcos.Base.{
  ℕ, ◌-◌, ◌^◌, ◌<◌, ◌≡◌, ◌∙◌, ap, Bool, List, [], ◌∷◌, ◌++◌, length, ltb, ok, All, All-get_elem?,
  All-set, All-front, All-append, IsU64, arith,
}
use go_fiscobcos.Heap.{Implements}
use go_fiscobcos.Heap.Array.{entry, swapped, swapped_def, key_at}
use go_fiscobcos.Prque.{Item, Sstack, sstack, sstack_less, sstack_swap, sstack_push, sstack_pop}
use go_fiscobcos.Prque.Priority.{rank, IsInWindow, comes_before_lem}
use go_fiscobcos.Prque.Stack.{items, Holds, items-Holds, less_lem, swap_lem}
use go_fiscobcos.Prque.Ends.{sstack_push_lem, sstack_pop_lem}

module _ {V : Type 0} (base : ℕ) (word : IsU64 base) where
  abbrev pub IsRanked : Item V → Type 0
  IsRanked x = IsInWindow base x.priority

  pub record IsStack (s : Sstack V) : Type 0 where
    pub held : Holds s (items s)
    pub ranked : All IsRanked (items s)

  -- A heap has its least key first, the queue its greatest priority.
  abbrev pub key : Item V → ℕ
  key x = 2 ^ 63 - rank base x.priority

  pub IsStack-Holds :
      (s : Sstack V) (a : List (Item V)) → Holds s a → All IsRanked a → IsStack s × (items s ≡ a)
  IsStack-Holds s a held ranked =
      let same = items-Holds s a held in
      (record { held = rw same held; ranked = rw same ranked }, same)

  All-swapped :
      (a : List (Item V)) (i j : ℕ)
      → i < length a
      → j < length a
      → All IsRanked a
      → All IsRanked (swapped a i j)
  All-swapped a i j hi hj all =
      let (x, ex) = entry a i hi in
      let (y, ey) = entry a j hj in
      rw (swapped_def a i j x y ex ey) (
        All-set IsRanked _ j x (All-set IsRanked a i y all (All-get_elem? IsRanked a j y all ey))
          (All-get_elem? IsRanked a i x all ex))

  pub less_ok :
      (s : Sstack V) (i j : ℕ)
      → IsStack s
      → i < length (items s)
      → j < length (items s)
      → sstack_less s i j ≡ ok (ltb (key_at key (items s) i) (key_at key (items s) j))
  less_ok s i j wf hi hj =
      let (x, ex) = entry (items s) i hi in
      let (y, ey) = entry (items s) j hj in
      let px = All-get_elem? IsRanked (items s) i x wf.ranked ex in
      let py = All-get_elem? IsRanked (items s) j y wf.ranked ey in
      less_lem s (items s) wf.held i j x y hi hj ex ey
      ∙ ap (λ (t : Bool). ok t)
          (comes_before_lem base x.priority y.priority word px py
            ∙ ground (arith, ex, ey, px.near, py.near))

  pub swap_ok :
      (s : Sstack V) (i j : ℕ)
      → IsStack s
      → i < length (items s)
      → j < length (items s)
      → (s' : Sstack V) × (sstack_swap s i j ≡ ok s')
        × IsStack s'
        × (items s' ≡ swapped (items s) i j)
  swap_ok s i j wf hi hj =
      let (s', e, held) = swap_lem s (items s) i j wf.held hi hj in
      let (wf', same) = IsStack-Holds s' _ held (All-swapped (items s) i j hi hj wf.ranked) in
      (s', e, wf', same)

  pub push_ok :
      (s : Sstack V) (x : Item V)
      → IsStack s
      → IsRanked x
      → (s' : Sstack V) × (sstack_push s x ≡ ok s') × IsStack s' × (items s' ≡ items s ++ x ∷ [])
  push_ok s x wf p =
      let (s', e, held) = sstack_push_lem s (items s) x wf.held in
      let (wf', same) =
        IsStack-Holds s' _ held (All-append IsRanked (items s) _ wf.ranked (p, tt)) in
      (s', e, wf', same)

  pub pop_ok :
      (s : Sstack V) (x : Item V) (front : List (Item V))
      → IsStack s
      → items s ≡ front ++ x ∷ []
      → (s' : Sstack V) × (sstack_pop s ≡ ok (x, s')) × IsStack s' × (items s' ≡ front)
  pop_ok s x front wf e =
      let (s', e', held) = sstack_pop_lem s front x (rw e at wf.held) in
      let (wf', same) =
        IsStack-Holds s' front held (All-front IsRanked front (x ∷ []) (rw e at wf.ranked)) in
      (s', e', wf', same)

  abbrev pub sstack_implements : Implements (sstack {V = V})
  sstack_implements = record {
    IsWellFormed = IsStack;
    IsItem = λ s x. IsRanked x;
    view = items;
    key = key;
    len-ok = λ s wf. wf.held.count;
    less-ok = less_ok;
    swap-ok = swap_ok;
    push-ok = push_ok;
    pop-ok = pop_ok;
  }
