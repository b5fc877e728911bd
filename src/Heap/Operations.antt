-- ===== src/Heap/Operations.antt =====
-- The heap's operations on an implementation: what Push, Pop and Remove do.
use mathlib.Core.List.{Perm, perm_middle}
use mathlib.Core.List.Perm
use native.Mathlib.Decide.{ℕ_discrete}
use go_fiscobcos.Base.{
  ◌>>=◌, ◌≢◌, ℕ, suc, ◌+◌, ◌-◌, ◌≤◌, ◌<◌, ◌≡◌, ◌∙◌, sym, ap, inl, inr, List, [], ◌∷◌, ◌++◌, length,
  get_elem?, some, Outcome, ok, panic, length-append, append-nil, arith,
}
use go_fiscobcos.Heap.{
  Limit, Interface, Implements, parent, up, down, down_loop, heap_push, heap_pop, heap_remove,
  heap_fix,
}
use go_fiscobcos.Heap.Array.{
  swapped, key_at, entry, key_at-other, key_at-front, get_elem?-second, length-swapped,
  swapped-perm, last_split,
}
use go_fiscobcos.Heap.Order.{IsHeap, IsLoose, IsHeap-settled, Rearranged, Rearranged-refl}
use go_fiscobcos.Heap.Up.{Heaped, Heaped-up}
use go_fiscobcos.Heap.Down.{down_loop-Rests}

append_perm : {A : Type 0} (a : List A) (x : A) → Perm (a ++ x ∷ []) (x ∷ a)
append_perm a x = rw append-nil at (perm_middle {a = x} a [])

module _ {A : Type 0} (key : A → ℕ) where
  pub IsLoose-appended :
      (a : List A) (x : A)
      → IsHeap key (length a) a
      → IsLoose key (length a + 1) (a ++ x ∷ []) (length a)
  IsLoose-appended a x heap = record {
    edges = λ c pos h ne ne'. omega (
      arith,
      key_at-front key a (x ∷ []) c (omega arith),
      key_at-front key a (x ∷ []) (parent c) (omega arith),
      heap c pos (omega arith),
    );
    bridged = λ c pos pos' h e. absurd (omega (arith, e));
  }

  -- The last entry takes the place of the one at `i`.
  pub IsLoose-replaced :
      (n : ℕ) (a : List A) (i : ℕ)
      → length a ≡ suc n
      → i < suc n
      → IsHeap key (suc n) a
      → IsLoose key n (swapped a i n) i
  IsLoose-replaced n a i size inside heap =
      let other = key_at-other a i n (omega (arith, size)) (omega (arith, size)) key in
      record {
        edges = λ c pos h ne ne'. omega (
          arith,
          other c ne (λ z. omega (arith, z)),
          other (parent c) ne' (λ z. omega (arith, z)),
          heap c pos (omega arith),
        );
        bridged = λ c pos pos' h e. omega (
          arith,
          other c (λ z. omega (arith, z, e)) (λ z. omega (arith, z)),
          other (parent i) (λ z. omega (arith, z)) (λ z. omega (arith, z)),
          heap c pos' (omega arith),
          heap i pos (omega arith),
          ap (key_at key a) e,
        );
      }

-- The keys of a heap, of which only the one of the entry at `i` has changed.
pub IsLoose-changed :
    {A : Type 0} (key key' : A → ℕ) (n : ℕ) (a : List A) (i : ℕ)
    → i < n
    → IsHeap key n a
    → ((c : ℕ) → c < n → c ≢ i → key_at key' a c ≡ key_at key a c)
    → IsLoose key' n a i
IsLoose-changed key key' n a i inside heap same = record {
  edges =
      λ c pos h ne ne'. omega (arith, same c h ne, same (parent c) (omega arith) ne', heap c pos h);
  bridged = λ c pos pos' h e. omega (
    arith,
    same c h (λ z. omega (arith, z, e)),
    same (parent i) (omega arith) (λ z. omega (arith, z)),
    heap c pos' h,
    heap i pos inside,
    ap (key_at key a) e,
  );
}

module _ {S A : Type 0} (h : Interface S A) (impl : Implements h) where
  -- A well-formed state that is a heap.
  pub record IsReady (s : S) : Type 0 where
    pub formed : impl.IsWellFormed s
    pub ordered : IsHeap impl.key (length (impl.view s)) (impl.view s)

  -- A call that ends with `x` added.
  abbrev pub Pushed : S → A → Outcome Limit S → Type 0
  Pushed s x r = (s' : S) × (r ≡ ok s') × IsReady s' × Perm (impl.view s') (x ∷ impl.view s)

  -- A call that returns the entry at `i` and ends with the others.
  abbrev pub Taken : S → ℕ → Outcome Limit (A × S) → Type 0
  Taken s i r =
      (x : A) × (s' : S) × (r ≡ ok (x, s'))
      × (get_elem? (impl.view s) i ≡ some x)
      × IsReady s'
      × Perm (x ∷ impl.view s') (impl.view s)

  heap_push_runs :
      (s s1 : S) (x : A) → h.push s x ≡ ok s1 → heap_push h s x ≡ up h s1 (h.len s1 - 1)
  unfolding heap_push
  heap_push_runs s s1 x e = ground (arith, e)

  -- Push depends on no more of the state than the implementation's Push.
  pub heap_push-same :
      (s t : S) (x : A) → h.push s x ≡ h.push t x → heap_push h s x ≡ heap_push h t x
  unfolding heap_push
  heap_push-same s t x e = ap (λ m. m >>= λ s'. up h s' (h.len s' - 1)) e

  pub Pushed-heap_push :
      (s : S) (x : A) → IsReady s → impl.IsItem s x → Pushed s x (heap_push h s x)
  Pushed-heap_push s x ready item =
      let a : List A = impl.view s in
      let (s1, push, wf1, view) = impl.push-ok s x ready.formed item in
      let size : length (impl.view s1) ≡ length a + 1 = ap length view ∙ length-append a (x ∷ []) in
      let at : h.len s1 - 1 ≡ length a = omega (arith, impl.len-ok s1 wf1, size) in
      let v : IsLoose impl.key (length a + 1) (impl.view s1) (length a) =
        rw view (IsLoose-appended impl.key a x ready.ordered) in
      let (s', e, wf', heap, moved) =
        Heaped-up h impl (length a + 1) s1 (length a) wf1 (omega arith) (omega (arith, size)) v
          (λ c pos inside e. absurd (omega (arith, e))) in
      let whole : length (impl.view s') ≡ length a + 1 = moved.size ∙ size in
      (
        s',
        heap_push_runs s s1 x push ∙ ap (up h s1) at ∙ e,
        record { formed = wf'; ordered = rw whole heap },
        Perm.trans moved.perm (rw view (append_perm a x)),
      )

  -- Pop of a state whose last entry is the one that is wanted.
  Taken-pop :
      (s t : S) (i n : ℕ) (x : A)
      → impl.IsWellFormed t
      → length (impl.view t) ≡ suc n
      → get_elem? (impl.view t) n ≡ some x
      → get_elem? (impl.view s) i ≡ some x
      → IsHeap impl.key n (impl.view t)
      → Perm (impl.view t) (impl.view s)
      → Taken s i (h.pop t)
  Taken-pop s t i n x wf size last here heap perm =
      let (front, split, fits) = last_split n (impl.view t) x size last in
      let (s', pop, wf', view) = impl.pop-ok t x front wf split in
      let same : (c : ℕ)
          → c < n
          → key_at impl.key (impl.view s') c ≡ key_at impl.key (impl.view t) c =
        λ c inside.
          ap (λ (l : List A). key_at impl.key l c) view
          ∙ (sym (key_at-front impl.key front (x ∷ []) c (omega (arith, fits)))
              ∙ ap (λ (l : List A). key_at impl.key l c) (sym split)) in
      let count : length (impl.view s') ≡ n = ap length view ∙ fits in
      (
        x,
        s',
        pop,
        here,
        record {
          formed = wf';
          ordered = λ c pos inside. omega (
            arith,
            same c (omega (arith, count)),
            same (parent c) (omega (arith, count)),
            heap c pos (omega (arith, count)),
          );
        },
        Perm.trans (rw view (Perm.symm (append_perm front x))) (rw split at perm),
      )

  module _ (s s1 : S) (i n : ℕ) (size : length (impl.view s) ≡ suc n) (inside : i < suc n)
      (view : impl.view s1 ≡ swapped (impl.view s) i n) where
    -- After the exchange with the last entry, and with the others in order again.
    Taken-exchanged :
        (t : S)
        → impl.IsWellFormed t
        → IsHeap impl.key n (impl.view t)
        → Rearranged n (impl.view t) (impl.view s1)
        → Taken s i (h.pop t)
    Taken-exchanged t wf heap moved =
        let a : List A = impl.view s in
        let hi : i < length a = omega (arith, size) in
        let hn : n < length a = omega (arith, size) in
        let (x, here) = entry a i hi in
        let last : get_elem? (impl.view t) n ≡ some x =
          moved.kept n (omega arith)
          ∙ ap (λ (l : List A). get_elem? l n) view
          ∙ get_elem?-second a i n hi hn
          ∙ here in
        let count : length (impl.view t) ≡ suc n =
          moved.size ∙ ap length view ∙ length-swapped a i n hi hn ∙ size in
        let perm : Perm (impl.view t) (impl.view s) =
          Perm.trans moved.perm (rw view (swapped-perm a i n hi hn)) in
        Taken-pop s t i n x wf count last here heap perm

    length-exchanged : length (impl.view s1) ≡ suc n
    length-exchanged =
        ap length view
        ∙ length-swapped (impl.view s) i n (omega (arith, size)) (omega (arith, size))
        ∙ size

  ended :
      (m : Outcome Limit (S × ℕ)) (t s : S) (rest i : ℕ)
      → m ≡ ok (t, rest)
      → t ≡ s
      → rest ≡ i
      → m ≡ ok (s, i)
  ended m t s rest i e e' e'' = cc

  heap_remove_last : (s : S) (i : ℕ) → h.len s ≡ suc i → heap_remove h s i ≡ h.pop s
  unfolding heap_remove
  heap_remove_last s i e = let at : h.len s - 1 ≡ i = omega (arith, e) in ground (arith, e, at)

  heap_remove_sunk :
      (s s1 t : S) (i n rest : ℕ)
      → h.len s ≡ suc n
      → i < n
      → h.swap s i n ≡ ok s1
      → down_loop h (n + 1) s1 i n ≡ ok (t, rest)
      → i < rest
      → heap_remove h s i ≡ h.pop t
  unfolding heap_remove down
  heap_remove_sunk s s1 t i n rest e below e1 e2 sunk =
      let at : h.len s - 1 ≡ n = omega (arith, e) in ground (arith, e, at, below, e1, e2, sunk)

  heap_remove_stays :
      (s s1 t u : S) (i n : ℕ)
      → h.len s ≡ suc n
      → i < n
      → h.swap s i n ≡ ok s1
      → down_loop h (n + 1) s1 i n ≡ ok (t, i)
      → up h t i ≡ ok u
      → heap_remove h s i ≡ h.pop u
  unfolding heap_remove down
  heap_remove_stays s s1 t u i n e below e1 e2 e3 =
      let at : h.len s - 1 ≡ n = omega (arith, e) in ground (arith, e, at, below, e1, e2, e3)

  Taken-heap_remove_inner :
      (s : S) (i n : ℕ)
      → IsReady s
      → length (impl.view s) ≡ suc n
      → i < n
      → Taken s i (heap_remove h s i)
  Taken-heap_remove_inner s i n ready size inside =
      let at : h.len s ≡ suc n = impl.len-ok s ready.formed ∙ size in
      let (s1, swap, wf1, view) =
        impl.swap-ok s i n ready.formed (omega (arith, size)) (omega (arith, size)) in
      let heap : IsHeap impl.key (suc n) (impl.view s) = rw size at ready.ordered in
      let loose = IsLoose-replaced impl.key n (impl.view s) i size (omega arith) heap in
      let v : IsLoose impl.key n (impl.view s1) i = rw view loose in
      let fits : n ≤ length (impl.view s1) =
        omega (arith, length-exchanged s s1 i n size (omega arith) view) in
      let (t, rest, e, result) = down_loop-Rests h impl (n + 1) n s1 i (omega arith) wf1 fits v in
      let taken = Taken-exchanged s s1 i n size (omega arith) view in
      elim result [
        | inr (sunk, wf, heap', moved) ↦
            rw (heap_remove_sunk s s1 t i n rest at inside swap e sunk) (taken t wf heap' moved)
        | inl (same, start, above) ↦
            let (u, e', wf', heap', moved) = Heaped-up h impl n s1 i wf1 inside fits v above in
            let down = ended _ t s1 rest i e start same in
            rw (heap_remove_stays s s1 s1 u i n at inside swap down e') (taken u wf' heap' moved)
      ]

  -- Remove returns the entry at an index that is in the heap.
  pub Taken-heap_remove :
      (s : S) (i : ℕ) → IsReady s → i < length (impl.view s) → Taken s i (heap_remove h s i)
  Taken-heap_remove s i ready inside =
      let n : ℕ = length (impl.view s) - 1 in
      let size : length (impl.view s) ≡ suc n = omega arith in
      elim (ℕ_discrete i n) [
        | no apart ↦ Taken-heap_remove_inner s i n ready size (omega (arith, apart))
        | yes last ↦
            let (x, here) = entry (impl.view s) i inside in
            let at : h.len s ≡ suc i = omega (arith, impl.len-ok s ready.formed, size, last) in
            let heap : IsHeap impl.key n (impl.view s) =
              λ c pos h'. ready.ordered c pos (omega arith) in
            rw (heap_remove_last s i at) (
              Taken-pop s s i n x ready.formed size (ap (get_elem? (impl.view s)) (sym last) ∙ here)
                here heap (Perm.refl (impl.view s)))
      ]

  heap_pop_runs :
      (s s1 t : S) (n rest : ℕ)
      → h.len s ≡ suc n
      → h.swap s 0 n ≡ ok s1
      → down_loop h (n + 1) s1 0 n ≡ ok (t, rest)
      → heap_pop h s ≡ h.pop t
  unfolding heap_pop down
  heap_pop_runs s s1 t n rest e e1 e2 =
      let at : h.len s - 1 ≡ n = omega (arith, e) in ground (arith, e, at, e1, e2)

  -- Pop returns the root.
  pub Taken-heap_pop : (s : S) → IsReady s → 0 < length (impl.view s) → Taken s 0 (heap_pop h s)
  Taken-heap_pop s ready inside =
      let n : ℕ = length (impl.view s) - 1 in
      let size : length (impl.view s) ≡ suc n = omega arith in
      let len : h.len s ≡ suc n = impl.len-ok s ready.formed ∙ size in
      let (s1, swap, wf1, view) = impl.swap-ok s 0 n ready.formed inside (omega arith) in
      let heap : IsHeap impl.key (suc n) (impl.view s) = rw size at ready.ordered in
      let loose = IsLoose-replaced impl.key n (impl.view s) 0 size (omega arith) heap in
      let v : IsLoose impl.key n (impl.view s1) 0 = rw view loose in
      let fits : n ≤ length (impl.view s1) =
        omega (arith, length-exchanged s s1 0 n size (omega arith) view) in
      let (t, rest, e, result) = down_loop-Rests h impl (n + 1) n s1 0 (omega arith) wf1 fits v in
      let taken = Taken-exchanged s s1 0 n size (omega arith) view in
      rw (heap_pop_runs s s1 t n rest len swap e) (elim result [
        | inr (sunk, wf, heap', moved) ↦ taken t wf heap' moved
        | inl (same, start, above) ↦
            let settled =
              IsHeap-settled impl.key n (impl.view s1) 0 v above (λ pos. absurd (omega arith)) in
            rw start (taken s1 wf1 settled (Rearranged-refl n (impl.view s1)))
      ])

  pub heap_remove_empty : (s : S) (i : ℕ) → h.len s ≡ 0 → heap_remove h s i ≡ panic
  unfolding heap_remove
  heap_remove_empty s i none = ground (arith, none)

  pub heap_pop_empty :
      (s : S) → impl.IsWellFormed s → length (impl.view s) ≡ 0 → heap_pop h s ≡ panic
  unfolding heap_pop
  heap_pop_empty s wf none = ground (arith, impl.len-ok s wf, none)

  heap_fix_sunk :
      (s t : S) (i rest : ℕ)
      → down_loop h (h.len s + 1) s i (h.len s) ≡ ok (t, rest)
      → i < rest
      → heap_fix h s i ≡ ok t
  unfolding heap_fix down
  heap_fix_sunk s t i rest e sunk = ground (arith, e, sunk)

  heap_fix_stays :
      (s t : S) (i : ℕ)
      → down_loop h (h.len s + 1) s i (h.len s) ≡ ok (t, i)
      → heap_fix h s i ≡ up h t i
  unfolding heap_fix down
  heap_fix_stays s t i e = ground (arith, e)

  -- Fix puts an entry in its place whose key has changed.
  pub Heaped-heap_fix :
      (s : S) (i : ℕ)
      → impl.IsWellFormed s
      → i < length (impl.view s)
      → IsLoose impl.key (length (impl.view s)) (impl.view s) i
      → Heaped h impl (length (impl.view s)) s (heap_fix h s i)
  Heaped-heap_fix s i wf inside v =
      let n : ℕ = length (impl.view s) in
      let len : h.len s ≡ n = impl.len-ok s wf in
      let (t, rest, e, result) =
        down_loop-Rests h impl (n + 1) n s i (omega arith) wf (omega arith) v in
      let start : down_loop h (h.len s + 1) s i (h.len s) ≡ ok (t, rest) =
        ap (λ (k : ℕ). down_loop h (k + 1) s i k) len ∙ e in
      elim result [
        | inr (sunk, wf', heap, moved) ↦ (t, heap_fix_sunk s t i rest start sunk, wf', heap, moved)
        | inl (same, here, above) ↦
            rw (heap_fix_stays s s i (ended _ t s rest i start here same))
              (Heaped-up h impl n s i wf inside (omega arith) v above)
      ]

pub IsHeap-keys :
    {A : Type 0} (key key' : A → ℕ) (n : ℕ) (a : List A)
    → ((c : ℕ) → c < n → key_at key' a c ≡ key_at key a c)
    → IsHeap key n a
    → IsHeap key' n a
IsHeap-keys key key' n a same heap c pos h =
    omega (arith, same c h, same (parent c) (omega arith), heap c pos h)
