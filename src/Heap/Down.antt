-- ===== src/Heap/Down.antt =====
-- heap.down puts an entry that is too high in the tree in its place.
use native.Mathlib.Decide.{dec_lt, ℕ_discrete}
use go_fiscobcos.Base.{
  ℕ, zero, suc, ◌+◌, ◌-◌, ◌*◌, ◌≤◌, ◌<◌, ◌≡◌, ◌∙◌, ◌⊎◌, inl, inr, refl, ap, Bool, true, false, List,
  length, ok, arith,
}
use go_fiscobcos.Heap.{Interface, Implements, parent, first_child, down_loop}
use go_fiscobcos.Heap.Array.{swapped, key_at, key_at-first, key_at-second, key_at-other}
use go_fiscobcos.Heap.Order.{
  IsHeap, IsLoose, IsAboveChildren, IsBelowParent, IsHeap-settled, Rearranged, Rearranged-trans,
  Rearranged-swapped,
}

-- The child of `i` with the least key, of those below `n`.
pub record IsLeastChild {A : Type 0} (key : A → ℕ) (n : ℕ) (a : List A) (i m : ℕ) : Type 0 where
  pub inside : m < n
  pub child : (m ≡ 2 * i + 1) ⊎ (m ≡ 2 * i + 2)
  pub least : (c : ℕ) → 0 < c → c < n → parent c ≡ i → key_at key a m ≤ key_at key a c

module _ {A : Type 0} (key : A → ℕ) (n : ℕ) (a : List A) (i m : ℕ) (fits : n ≤ length a) where
  IsLoose-sink :
      IsLoose key n a i
      → IsLeastChild key n a i m
      → key_at key a m < key_at key a i
      → IsLoose key n (swapped a i m) m × IsBelowParent key (swapped a i m) m
  IsLoose-sink v s below =
      let b : List A = swapped a i m in
      let up : parent m ≡ i = ground (arith, s.child) in
      let deeper : i < m = ground (arith, s.child) in
      let inside : m < n = s.inside in
      let hi : i < length a = omega arith in
      let hm : m < length a = omega arith in
      let at_i : key_at key b i ≡ key_at key a m = key_at-first a i m hi hm key in
      let at_m : key_at key b m ≡ key_at key a i = key_at-second a i m hi hm key in
      let other = key_at-other a i m hi hm key in
      (
        record {
          edges = λ c q h ne ne'. elim (ℕ_discrete c i) [
            | yes is_i ↦
                let grand : key_at key b (parent c) ≡ key_at key a (parent i) =
                  ap (λ (z : ℕ). key_at key b (parent z)) is_i
                  ∙ other (parent i) (λ z. omega (arith, z, is_i)) (λ z. omega (arith, z, is_i)) in
                let here = ap (key_at key b) is_i in
                omega (
                  arith,
                  grand,
                  here,
                  at_i,
                  v.bridged m (omega (arith, is_i)) (omega arith) inside up,
                )
            | no apart ↦
                let same : key_at key b c ≡ key_at key a c = other c apart ne in
                elim (ℕ_discrete (parent c) i) [
                  | yes e ↦ omega (arith, same, ap (key_at key b) e, at_i, s.least c q h e)
                  | no far ↦ omega (arith, same, other (parent c) far ne', v.edges c q h apart far)
                ]
          ];
          bridged = λ c q q' h e.
              let same : key_at key b c ≡ key_at key a c =
                other c (λ z. omega (arith, z, e)) (λ z. omega (arith, z, e)) in
              omega (
                arith,
                same,
                at_i,
                ap (key_at key b) up,
                ap (key_at key a) e,
                v.edges c q' h (λ z. omega (arith, z, e)) (λ z. omega (arith, z, e)),
              );
        },
        λ pos. omega (arith, ap (key_at key b) up, at_i, at_m),
      )

child_cases : (c i : ℕ) → 0 < c → parent c ≡ i → (c ≡ 2 * i + 1) ⊎ (c ≡ 2 * i + 1 + 1)
child_cases c i pos e = ground arith

module _ {A : Type 0} (key : A → ℕ) (n : ℕ) (a : List A) (i : ℕ) where
  -- One of the two children, whichever is less, or the only one.
  least_of_one : 2 * i + 1 < n → n ≤ 2 * i + 1 + 1 → IsLeastChild key n a i (2 * i + 1)
  least_of_one inside only = record {
    inside = inside;
    child = inl refl;
    least = λ c q h e. elim (child_cases c i q e) [
      | inl left ↦ omega (arith, ap (key_at key a) left)
      | inr right ↦ absurd (omega (arith, right))
    ];
  }

  least_left :
      2 * i + 1 < n
      → key_at key a (2 * i + 1) ≤ key_at key a (2 * i + 1 + 1)
      → IsLeastChild key n a i (2 * i + 1)
  least_left inside le = record {
    inside = inside;
    child = inl refl;
    least = λ c q h e. elim (child_cases c i q e) [
      | inl left ↦ omega (arith, ap (key_at key a) left)
      | inr right ↦ omega (arith, le, ap (key_at key a) right)
    ];
  }

  least_right :
      2 * i + 1 + 1 < n
      → key_at key a (2 * i + 1 + 1) ≤ key_at key a (2 * i + 1)
      → IsLeastChild key n a i (2 * i + 1 + 1)
  least_right inside le = record {
    inside = inside;
    child = inr (omega arith);
    least = λ c q h e. elim (child_cases c i q e) [
      | inl left ↦ omega (arith, le, ap (key_at key a) left)
      | inr right ↦ omega (arith, ap (key_at key a) right)
    ];
  }

module _ {S A : Type 0} (h : Interface S A) (impl : Implements h) where
  first_child-IsLeastChild :
      (n : ℕ) (s : S) (i : ℕ)
      → impl.IsWellFormed s
      → n ≤ length (impl.view s)
      → 2 * i + 1 < n
      → (m : ℕ) × (first_child h s i n ≡ ok m) × IsLeastChild impl.key n (impl.view s) i m
  unfolding first_child
  first_child-IsLeastChild n s i wf fits inside =
      let a : List A = impl.view s in
      let left : ℕ = 2 * i + 1 in
      elim (dec_lt (left + 1) n) [
        | no h1 ↦ (left, ground (arith, h1), least_of_one impl.key n a i inside (omega arith))
        | yes both ↦
            let less = impl.less-ok s (left + 1) left wf (omega arith) (omega arith) in
            elim (dec_lt (key_at impl.key a (left + 1)) (key_at impl.key a left)) [
              | yes right ↦ (
                left + 1,
                ground (arith, both, less, right),
                least_right impl.key n a i both (omega arith),
              )
              | no other ↦ (
                left,
                ground (arith, both, less, other),
                least_left impl.key n a i inside (omega arith),
              )
            ]
      ]

  down_loop_leaf :
      (fuel : ℕ) (s : S) (i n : ℕ) → n ≤ 2 * i + 1 → down_loop h (suc fuel) s i n ≡ ok (s, i)
  unfolding down_loop
  down_loop_leaf fuel s i n e = ground (arith, e)

  down_loop_settles :
      (fuel : ℕ) (s : S) (i n m : ℕ)
      → 2 * i + 1 < n
      → first_child h s i n ≡ ok m
      → h.less s m i ≡ ok false
      → down_loop h (suc fuel) s i n ≡ ok (s, i)
  unfolding down_loop
  down_loop_settles fuel s i n m inside e e' = ground (arith, e, e', inside)

  down_loop_sinks :
      (fuel : ℕ) (s s' : S) (i n m : ℕ)
      → 2 * i + 1 < n
      → first_child h s i n ≡ ok m
      → h.less s m i ≡ ok true
      → h.swap s i m ≡ ok s'
      → down_loop h (suc fuel) s i n ≡ down_loop h fuel s' m n
  unfolding down_loop
  down_loop_sinks fuel s s' i n m inside e e' e'' = ground (arith, e, e', e'', inside)

  -- Where the loop ends: at the start, whose children are in order then, or further down, and then
  -- the whole is a heap.
  abbrev pub Rests : ℕ → S → ℕ → S → ℕ → Type 0
  Rests n s i s' rest =
      ((rest ≡ i) × (s' ≡ s) × IsAboveChildren impl.key n (impl.view s) i)
      ⊎ ((i < rest)
          × impl.IsWellFormed s'
          × IsHeap impl.key n (impl.view s')
          × Rearranged n (impl.view s') (impl.view s))

  pub down_loop-Rests :
      (fuel n : ℕ) (s : S) (i : ℕ)
      → n - i < fuel
      → impl.IsWellFormed s
      → n ≤ length (impl.view s)
      → IsLoose impl.key n (impl.view s) i
      → (s' : S) × (rest : ℕ) × (down_loop h fuel s i n ≡ ok (s', rest)) × Rests n s i s' rest
  down_loop-Rests zero n s i f wf fits v = absurd (omega arith)
  down_loop-Rests (suc fuel) n s i f wf fits v =
      let a : List A = impl.view s in
      elim (dec_lt (2 * i + 1) n) [
        | no leaf ↦ (
          s,
          i,
          down_loop_leaf fuel s i n (omega arith),
          inl (refl, refl, λ c q h' e. absurd (ground (arith, child_cases c i q e))),
        )
        | yes inside ↦
            let (m, child, least) = first_child-IsLeastChild n s i wf fits inside in
            let less = impl.less-ok s m i wf (omega (arith, least.inside)) (omega arith) in
            elim (dec_lt (key_at impl.key a m) (key_at impl.key a i)) [
              | no settled ↦
                  let test : h.less s m i ≡ ok false =
                    less ∙ ap (λ (t : Bool). ok t) (ground (arith, settled)) in
                  (
                    s,
                    i,
                    down_loop_settles fuel s i n m inside child test,
                    inl (refl, refl, λ c q h' e. omega (arith, least.least c q h' e)),
                  )
              | yes below ↦
                  let test : h.less s m i ≡ ok true =
                    less ∙ ap (λ (t : Bool). ok t) (ground (arith, below)) in
                  let (s1, swap, wf1, view) =
                    impl.swap-ok s i m wf (omega arith) (omega (arith, least.inside)) in
                  let (v1, under) = IsLoose-sink impl.key n a i m fits v least below in
                  let moved = Rearranged-swapped n a i m (omega arith) least.inside fits in
                  let size = moved.size in
                  let deeper : i < m = ground (arith, least.child) in
                  let (s', rest, e, result) =
                    down_loop-Rests fuel n s1 m (omega (arith, least.inside)) wf1
                      (rw view (omega (arith, size))) (rw view v1) in
                  let all = down_loop_sinks fuel s s1 i n m inside child test swap ∙ e in
                  elim result [
                    | inl (here, same, above) ↦ (
                      s',
                      rest,
                      all,
                      inr (
                        omega (arith, here),
                        rw same wf1,
                        rw same (
                            IsHeap-settled impl.key n (impl.view s1) m (rw view v1) above
                              (rw view under)),
                        rw (same, view) moved,
                      ),
                    )
                    | inr (lower, wf', heap, perm) ↦ (
                      s',
                      rest,
                      all,
                      inr (omega (arith, lower), wf', heap, Rearranged-trans perm (rw view moved)),
                    )
                  ]
            ]
      ]
