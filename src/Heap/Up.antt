-- ===== src/Heap/Up.antt =====
-- heap.up puts an entry that is too low in the tree in its place.
use native.Mathlib.Decide.{dec_lt, ℕ_discrete}
use go_fiscobcos.Base.{
  ℕ, zero, suc, ◌+◌, ◌≤◌, ◌<◌, ◌≡◌, ◌≢◌, ◌∙◌, ap, Bool, true, false, List, length, Outcome, ok,
  arith,
}
use go_fiscobcos.Heap.{Limit, Interface, Implements, parent, up_loop, up}
use go_fiscobcos.Heap.Array.{swapped, key_at, key_at-first, key_at-second, key_at-other}
use go_fiscobcos.Heap.Order.{
  IsHeap, IsLoose, IsAboveChildren, IsHeap-settled, Rearranged, Rearranged-refl, Rearranged-trans,
  Rearranged-swapped,
}

module _ {A : Type 0} (key : A → ℕ) (n : ℕ) (a : List A) (i : ℕ) (fits : n ≤ length a) where
  -- Exchanging the entry with its parent moves the place where the order may fail.
  pub IsLoose-rise :
      IsLoose key n a i
      → IsAboveChildren key n a i
      → 0 < i
      → i < n
      → key_at key a i < key_at key a (parent i)
      → IsLoose key n (swapped a (parent i) i) (parent i)
        × IsAboveChildren key n (swapped a (parent i) i) (parent i)
  IsLoose-rise v above pos inside below =
      let p : ℕ = parent i in
      let b : List A = swapped a p i in
      let hp : p < length a = omega arith in
      let hi : i < length a = omega arith in
      let at_p : key_at key b p ≡ key_at key a i = key_at-first a p i hp hi key in
      let at_i : key_at key b i ≡ key_at key a p = key_at-second a p i hp hi key in
      let other = key_at-other a p i hp hi key in
      let under_i : (c : ℕ) → 0 < c → c < n → parent c ≡ i → key_at key a p ≤ key_at key a c =
        λ c q h e. v.bridged c pos q h e in
      (
        record {
          edges = λ c q h ne ne'.
              let same : key_at key b c ≡ key_at key a c = other c ne (λ e. ne' (ap parent e)) in
              elim (ℕ_discrete (parent c) i) [
                | yes e ↦ rw e (omega (arith, same, at_i, under_i c q h e))
                | no apart ↦ omega (
                  arith,
                  same,
                  other (parent c) ne' apart,
                  v.edges c q h (λ e. ne' (ap parent e)) apart,
                )
              ];
          bridged = λ c q q' h e.
              let grand : key_at key b (parent p) ≡ key_at key a (parent p) =
                other (parent p) (λ z. ground (arith, z, q)) (λ z. ground (arith, z, q)) in
              let edge =
                v.edges p q (omega arith) (λ z. ground (arith, z, pos))
                  (λ z. ground (arith, z, q, pos)) in
              elim (ℕ_discrete c i) [
                | yes is_i ↦ rw is_i (omega (arith, grand, at_i, edge))
                | no apart ↦
                    let same : key_at key b c ≡ key_at key a c =
                      other c (λ z. ground (arith, z, e, q')) apart in
                    omega (
                      arith,
                      grand,
                      same,
                      edge,
                      ap (key_at key a) e,
                      v.edges c q' h apart (λ z. ground (arith, z, e, pos)),
                    )
              ];
        },
        λ c q h e. elim (ℕ_discrete c i) [
          | yes is_i ↦ rw is_i (omega (arith, at_p, at_i, below))
          | no apart ↦
              let same : key_at key b c ≡ key_at key a c =
                other c (λ z. ground (arith, z, e, q)) apart in
              omega (
                arith,
                same,
                at_p,
                below,
                ap (key_at key a) e,
                v.edges c q h apart (λ z. ground (arith, z, e, pos)),
              )
        ],
      )

module _ {S A : Type 0} (h : Interface S A) (impl : Implements h) where
  -- A call that ends with a heap of the same entries.
  abbrev pub Heaped : ℕ → S → Outcome Limit S → Type 0
  Heaped n s r =
      (s' : S) × (r ≡ ok s')
      × impl.IsWellFormed s'
      × IsHeap impl.key n (impl.view s')
      × Rearranged n (impl.view s') (impl.view s)

  up_loop_stays : (fuel : ℕ) (s : S) (i : ℕ) → parent i ≡ i → up_loop h (suc fuel) s i ≡ ok s
  unfolding up_loop
  up_loop_stays fuel s i e = ground (arith, e)

  up_loop_settles :
      (fuel : ℕ) (s : S) (i : ℕ)
      → parent i ≢ i
      → h.less s i (parent i) ≡ ok false
      → up_loop h (suc fuel) s i ≡ ok s
  unfolding up_loop
  up_loop_settles fuel s i apart e = ground (arith, e, apart)

  up_loop_rises :
      (fuel : ℕ) (s s' : S) (i : ℕ)
      → parent i ≢ i
      → h.less s i (parent i) ≡ ok true
      → h.swap s (parent i) i ≡ ok s'
      → up_loop h (suc fuel) s i ≡ up_loop h fuel s' (parent i)
  unfolding up_loop
  up_loop_rises fuel s s' i apart e e' = ground (arith, e, e', apart)

  Heaped-up_loop :
      (fuel n : ℕ) (s : S) (i : ℕ)
      → i < fuel
      → impl.IsWellFormed s
      → i < n
      → n ≤ length (impl.view s)
      → IsLoose impl.key n (impl.view s) i
      → IsAboveChildren impl.key n (impl.view s) i
      → Heaped n s (up_loop h fuel s i)
  Heaped-up_loop zero n s i f wf inside fits v above = absurd (omega arith)
  Heaped-up_loop (suc fuel) n s i f wf inside fits v above =
      let a : List A = impl.view s in
      let p : ℕ = parent i in
      let less = impl.less-ok s i p wf (omega arith) (omega arith) in
      elim (ℕ_discrete p i) [
        | yes root ↦ (
          s,
          up_loop_stays fuel s i root,
          wf,
          IsHeap-settled impl.key n a i v above (λ pos. absurd (omega (arith, root))),
          Rearranged-refl n a,
        )
        | no apart ↦ elim (dec_lt (key_at impl.key a i) (key_at impl.key a p)) [
          | no settled ↦
              let test : h.less s i p ≡ ok false =
                less ∙ ap (λ (t : Bool). ok t) (ground (arith, settled)) in
              (
                s,
                up_loop_settles fuel s i apart test,
                wf,
                IsHeap-settled impl.key n a i v above (λ pos. omega arith),
                Rearranged-refl n a,
              )
          | yes below ↦
              let test : h.less s i p ≡ ok true =
                less ∙ ap (λ (t : Bool). ok t) (ground (arith, below)) in
              let (s1, swap, wf1, view) = impl.swap-ok s p i wf (omega arith) (omega arith) in
              let pos : 0 < i = ground (arith, apart) in
              let (v1, above1) = IsLoose-rise impl.key n a i fits v above pos inside below in
              let moved = Rearranged-swapped n a p i (omega arith) inside fits in
              let size = moved.size in
              let (s', e, wf', heap, same) =
                Heaped-up_loop fuel n s1 p (omega arith) wf1 (omega arith)
                  (rw view (omega (arith, size))) (rw view v1) (rw view above1) in
              (
                s',
                up_loop_rises fuel s s1 i apart test swap ∙ e,
                wf',
                heap,
                Rearranged-trans same (rw view moved),
              )
        ]
      ]

  -- An entry that may be too low in the tree is put in its place.
  pub Heaped-up :
      (n : ℕ) (s : S) (i : ℕ)
      → impl.IsWellFormed s
      → i < n
      → n ≤ length (impl.view s)
      → IsLoose impl.key n (impl.view s) i
      → IsAboveChildren impl.key n (impl.view s) i
      → Heaped n s (up h s i)
  unfolding up
  Heaped-up n s i wf inside fits v above =
      Heaped-up_loop (i + 1) n s i (omega arith) wf inside fits v above
