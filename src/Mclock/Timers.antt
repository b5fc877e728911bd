-- ===== src/Mclock/Timers.antt =====
-- The timers' heap keeps the index of each timer, and implements heap.Interface with the times as keys.
use native.Mathlib.Decide.{ℕ_discrete}
use go_fiscobcos.Base.{
  ℕ, ◌+◌, ◌<◌, ◌≡◌, ◌≢◌, ◌∙◌, sym, ap, List, [], ◌∷◌, ◌++◌, length, get_elem?, set, Option, none,
  some, get_elem?-inside, get_elem?-front, get_elem?-back, length-set, length-append, arith,
}
use go_fiscobcos.Heap.Array.{swapped, swapped_def, get_elem?-set, get_elem?-other, get_elem?-second}
use go_fiscobcos.Mclock.{SimTimer}

pub some_injective : {A : Type 0} {x y : A} → some x ≡ some y → x ≡ y
some_injective e = cc

pub none-some : {A : Type 0} {x : A} → ◌≡◌ {A = Option A} none (some x) → ⊥
none-some e = cc

module _ {F : Type 0} where
  abbrev pub time_or_0 : Option (SimTimer F) → ℕ
  time_or_0 none = 0
  time_or_0 (some timer) = timer.time

  abbrev pub time_of : List (SimTimer F) → ℕ → ℕ
  time_of timers t = time_or_0 (get_elem? timers t)

  -- A timer's index is its place in the heap.
  pub record IsPlaced (scheduled : List ℕ) (timers : List (SimTimer F)) : Type 0 where
    pub forth :
        (i t : ℕ)
        → get_elem? scheduled i ≡ some t
        → (timer : SimTimer F) × (get_elem? timers t ≡ some timer) × (timer.index ≡ some i)
    pub back :
        (i t : ℕ) (timer : SimTimer F)
        → get_elem? timers t ≡ some timer
        → timer.index ≡ some i
        → get_elem? scheduled i ≡ some t

  module _ (timers : List (SimTimer F)) (t : ℕ) (timer : SimTimer F)
      (found : get_elem? timers t ≡ some timer) (i : Option ℕ) where
    abbrev pub indexed : List (SimTimer F)
    indexed = set timers t (record timer { index = i })

    inside : t < length timers
    inside = get_elem?-inside timers t timer found

    pub indexed_here : get_elem? indexed t ≡ some (record timer { index = i })
    indexed_here = ground (arith, get_elem?-set timers t t (record timer { index = i }) inside)

    pub indexed_other : (u : ℕ) → u ≢ t → get_elem? indexed u ≡ get_elem? timers u
    indexed_other u apart =
        ground (arith, get_elem?-set timers t u (record timer { index = i }) inside, apart)

    pub time_of-indexed : (u : ℕ) → time_of indexed u ≡ time_of timers u
    time_of-indexed u = elim (ℕ_discrete u t) [
      | no apart ↦ ap time_or_0 (indexed_other u apart)
      | yes same ↦ rw same (ap time_or_0 indexed_here ∙ sym (ap time_or_0 found))
    ]

  module _ (sch : List ℕ) (timers : List (SimTimer F)) (placed : IsPlaced sch timers) where
    -- A timer is at one place.
    pub one_place : (i j t : ℕ) → get_elem? sch i ≡ some t → get_elem? sch j ≡ some t → i ≡ j
    one_place i j t ei ej =
        let (ti, fi, xi) = placed.forth i t ei in
        let (tj, fj, xj) = placed.forth j t ej in
        let same : ti ≡ tj = some_injective (sym fi ∙ fj) in
        some_injective (sym xi ∙ ap (λ (u : SimTimer F). u.index) same ∙ xj)

    module _ (i j a b : ℕ) (ea : get_elem? sch i ≡ some a) (eb : get_elem? sch j ≡ some b) where
      hi : i < length sch
      hi = get_elem?-inside sch i a ea

      hj : j < length sch
      hj = get_elem?-inside sch j b eb

      at_j : get_elem? (swapped sch i j) j ≡ some a
      at_j = get_elem?-second sch i j hi hj ∙ ea

      at_i : i ≢ j → get_elem? (swapped sch i j) i ≡ some b
      at_i apart =
          ap (λ (l : List ℕ). get_elem? l i) (swapped_def sch i j a b ea eb)
          ∙ ground (
            arith,
            get_elem?-set (set sch i b) j i a (omega (arith, hj, length-set sch i b)),
            get_elem?-set sch i i b hi,
            apart,
          )

      module _ (tb ta : SimTimer F) (fb : get_elem? timers b ≡ some tb)
          (fa : get_elem? (indexed timers b tb fb (some i)) a ≡ some ta) where
        pub IsPlaced-swapped :
            IsPlaced (swapped sch i j) (indexed (indexed timers b tb fb (some i)) a ta fa (some j))
        IsPlaced-swapped =
            let once : List (SimTimer F) = indexed timers b tb fb (some i) in
            let here_a = indexed_here once a ta fa (some j) in
            let here_b = indexed_here timers b tb fb (some i) in
            let apart_a = indexed_other once a ta fa (some j) in
            let apart_b = indexed_other timers b tb fb (some i) in
            record {
              forth = λ k t e. elim (ℕ_discrete k j) [
                | yes is_j ↦
                    let is_a : t ≡ a = some_injective (sym e ∙ rw is_j at_j) in
                    rw is_a (_, here_a, ap some (sym is_j))
                | no not_j ↦ elim (ℕ_discrete k i) [
                  | yes is_i ↦
                      let ij : i ≢ j = λ z. not_j (is_i ∙ z) in
                      let is_b : t ≡ b = some_injective (sym e ∙ rw is_i (at_i ij)) in
                      let ba : b ≢ a = λ z. ij (one_place i j a ea (rw z at eb)) in
                      rw is_b (_, apart_a b ba ∙ here_b, ap some (sym is_i))
                  | no not_i ↦
                      let there = sym (get_elem?-other sch i j hi hj k not_i not_j) ∙ e in
                      let (timer, found, index) = placed.forth k t there in
                      let ta' : t ≢ a = λ z. not_i (one_place k i a (rw z at there) ea) in
                      let tb' : t ≢ b = λ z. not_j (one_place k j b (rw z at there) eb) in
                      (timer, apart_a t ta' ∙ apart_b t tb' ∙ found, index)
                ]
              ];
              back = λ k t timer found index. elim (ℕ_discrete t a) [
                | yes is_a ↦
                    let same : timer ≡ record ta { index = some j } =
                      some_injective (sym found ∙ rw is_a here_a) in
                    let is_j : k ≡ j =
                      some_injective (sym index ∙ ap (λ (u : SimTimer F). u.index) same) in
                    rw (is_j, is_a) at_j
                | no not_a ↦ elim (ℕ_discrete t b) [
                  | yes is_b ↦
                      let same : timer ≡ record tb { index = some i } =
                        some_injective (sym found ∙ apart_a t not_a ∙ rw is_b here_b) in
                      let is_i : k ≡ i =
                        some_injective (sym index ∙ ap (λ (u : SimTimer F). u.index) same) in
                      let ij : i ≢ j =
                        λ z. not_a (is_b ∙ some_injective (sym (rw (← z) at eb) ∙ ea)) in
                      rw (is_i, is_b) (at_i ij)
                  | no not_b ↦
                      let there =
                        placed.back k t timer
                          (sym (apart_b t not_b) ∙ sym (apart_a t not_a) ∙ found) index in
                      let not_i : k ≢ i = λ z. not_a (some_injective (sym (rw z at there) ∙ ea)) in
                      let not_j : k ≢ j = λ z. not_b (some_injective (sym (rw z at there) ∙ eb)) in
                      get_elem?-other sch i j hi hj k not_i not_j ∙ there
                ]
              ];
            }

  module _ (sch : List ℕ) (timers : List (SimTimer F)) (t : ℕ) (timer : SimTimer F)
      (found : get_elem? timers t ≡ some timer) where
    -- A timer without a place, behind the others.
    pub IsPlaced-pushed :
        IsPlaced sch timers
        → timer.index ≡ none
        → IsPlaced (sch ++ t ∷ []) (indexed timers t timer found (some (length sch)))
    IsPlaced-pushed placed free =
        let n : ℕ = length sch in
        let here = indexed_here timers t timer found (some n) in
        let apart = indexed_other timers t timer found (some n) in
        let last : get_elem? (sch ++ t ∷ []) n ≡ some t =
          ap (get_elem? (sch ++ t ∷ [])) (omega arith) ∙ get_elem?-back sch (t ∷ []) 0 in
        record {
          forth = λ k u e.
              let size : k < n + 1 =
                omega (arith, get_elem?-inside (sch ++ t ∷ []) k u e, length-append sch (t ∷ [])) in
              elim (ℕ_discrete k n) [
                | yes is_n ↦
                    let is_t : u ≡ t = some_injective (sym e ∙ rw is_n last) in
                    rw is_t (_, here, ap some (sym is_n))
                | no not_n ↦
                    let there = sym (get_elem?-front sch (t ∷ []) k (omega (arith, not_n))) ∙ e in
                    let (other, found', index) = placed.forth k u there in
                    let not_t : u ≢ t = λ z. none-some (
                      sym free
                      ∙ ap (λ (x : SimTimer F). x.index)
                          (some_injective (sym found ∙ rw z at found'))
                      ∙ index) in
                    (other, apart u not_t ∙ found', index)
              ];
          back = λ k u other found' index. elim (ℕ_discrete u t) [
            | yes is_t ↦
                let same : other ≡ record timer { index = some n } =
                  some_injective (sym found' ∙ rw is_t here) in
                let is_n : k ≡ n =
                  some_injective (sym index ∙ ap (λ (x : SimTimer F). x.index) same) in
                rw (is_n, is_t) last
            | no not_t ↦
                let there = placed.back k u other (sym (apart u not_t) ∙ found') index in
                get_elem?-front sch (t ∷ []) k (get_elem?-inside sch k u there) ∙ there
          ];
        }

    -- The last timer is taken away.
    pub IsPlaced-popped :
        IsPlaced (sch ++ t ∷ []) timers → IsPlaced sch (indexed timers t timer found none)
    IsPlaced-popped placed =
        let n : ℕ = length sch in
        let here = indexed_here timers t timer found none in
        let apart = indexed_other timers t timer found none in
        let last : get_elem? (sch ++ t ∷ []) n ≡ some t =
          ap (get_elem? (sch ++ t ∷ [])) (omega arith) ∙ get_elem?-back sch (t ∷ []) 0 in
        record {
          forth = λ k u e.
              let size = get_elem?-inside sch k u e in
              let there = get_elem?-front sch (t ∷ []) k size ∙ e in
              let (other, found', index) = placed.forth k u there in
              let not_t : u ≢ t = λ z. absurd (
                omega (
                  arith,
                  size,
                  one_place (sch ++ t ∷ []) timers placed k n t (rw z at there) last,
                )) in
              (other, apart u not_t ∙ found', index);
          back = λ k u other found' index. elim (ℕ_discrete u t) [
            | yes is_t ↦
                let same : other ≡ record timer { index = none } =
                  some_injective (sym found' ∙ rw is_t here) in
                absurd (none-some (ap (λ (x : SimTimer F). x.index) (sym same) ∙ index))
            | no not_t ↦
                let there = placed.back k u other (sym (apart u not_t) ∙ found') index in
                let size : k < n + 1 =
                  omega (
                    arith,
                    get_elem?-inside (sch ++ t ∷ []) k u there,
                    length-append sch (t ∷ []),
                  ) in
                let not_n : k ≢ n = λ z. not_t (some_injective (sym (rw z at there) ∙ last)) in
                sym (get_elem?-front sch (t ∷ []) k (omega (arith, not_n))) ∙ there
          ];
        }
