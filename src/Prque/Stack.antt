-- ===== src/Prque/Stack.antt =====
-- The stack in blocks implements a list of items: what its methods do to the items that it holds.
use go_fiscobcos.Base.{
  ℕ, ◌+◌, ◌*◌, ◌/◌, ◌%◌, ◌≤◌, ◌<◌, ◌≡◌, ◌∙◌, sym, ap, List, [], ◌∷◌, length, get_elem?, set, Option,
  none, some, ok, length-set, length-replicate, Bool-cases, inl, inr, >>=-ok, arith,
}
use go_fiscobcos.Heap.Array.{entry, swapped, swapped_def}
use go_fiscobcos.Prque.{
  Item, Sstack, block_size, cell, store, report, sstack_less, sstack_swap, comes_before,
}
use go_fiscobcos.Prque.Blocks.{
  concat, HasWidth, length-concat, get_elem?-concat, concat-set, HasWidth-set, get_elem?-HasWidth,
  padded, values, values-padded, get_elem?-padded, set-padded,
}

module _ {V : Type 0} where
  abbrev pub items : Sstack V → List (Item V)
  items s = values (concat s.blocks)

  -- The stack holds the items of `a`, behind which all places are nil; the next one goes to the
  -- active block's offset, or the block behind it.
  pub record Holds (s : Sstack V) (a : List (Item V)) : Type 0 where
    pub wide : HasWidth block_size s.blocks
    pub room : s.capacity ≡ length s.blocks * block_size
    pub count : s.size ≡ length a
    pub free : ℕ
    pub filled : concat s.blocks ≡ padded a free
    pub place : s.active * block_size + s.offset ≡ s.size
    pub inside : s.active < length s.blocks
    pub edge : s.offset ≤ block_size

  pub length-padded : (a : List (Item V)) (k : ℕ) → length (padded a k) ≡ length a + k
  length-padded [] k = length-replicate k none ∙ omega arith
  length-padded (x ∷ a) k = omega (arith, length-padded a k)

  module _ (s : Sstack V) (a : List (Item V)) (held : Holds s a) where
    pub items-Holds : items s ≡ a
    items-Holds = ap values held.filled ∙ values-padded a held.free

    pub total : length a + held.free ≡ length s.blocks * block_size
    total =
        sym (length-padded a held.free)
        ∙ ap length (sym held.filled)
        ∙ length-concat block_size s.blocks held.wide

    pub cell_held :
        (b o i : ℕ) (x : Item V)
        → b * block_size + o ≡ i
        → o < block_size
        → i < length a
        → get_elem? a i ≡ some x
        → cell s b o ≡ ok (some x)
    cell_held b o i x at ho h e =
        let (row, found) = entry s.blocks b (omega (arith, total, at)) in
        let there : get_elem? row o ≡ some (some x) =
          sym (get_elem?-concat block_size s.blocks b o row held.wide ho found)
          ∙ ap (get_elem? (concat s.blocks)) at
          ∙ ap (λ (l : List (Option (Item V))). get_elem? l i) held.filled
          ∙ get_elem?-padded a held.free i x e in
        ground (arith, found, there)

  -- A write within the blocks.
  pub store_lem :
      (s : Sstack V) (b o : ℕ) (v : Option (Item V))
      → HasWidth block_size s.blocks
      → b < length s.blocks
      → o < block_size
      → (rows : List (List (Option (Item V)))) × (store s b o v ≡ ok (record s { blocks = rows }))
        × HasWidth block_size rows
        × (length rows ≡ length s.blocks)
        × (concat rows ≡ set (concat s.blocks) (b * block_size + o) v)
  store_lem s b o v wide hb ho =
      let (row, found) = entry s.blocks b hb in
      let size : length row ≡ block_size =
        get_elem?-HasWidth block_size s.blocks b row wide found in
      let (old, there) = entry row o (omega (arith, size)) in
      (
        set s.blocks b (set row o v),
        ground (arith, found, there),
        HasWidth-set block_size s.blocks b (set row o v) wide (length-set row o v ∙ size),
        length-set s.blocks b (set row o v),
        concat-set block_size s.blocks b o row v wide ho found,
      )

  pub report_lem :
      (s : Sstack V) (x : Item V) (i : Option ℕ)
      → (calls : List (V × Option ℕ)) × (report s (some x) i ≡ ok (record s { log = calls }))
  report_lem s x i = elim (Bool-cases s.set_index) [
    | inl on ↦ ((x.value, i) ∷ s.log, ground (arith, on))
    | inr off ↦ (s.log, ground (arith, off))
  ]

  module _ (s : Sstack V) (a : List (Item V)) (held : Holds s a) where
    block_lt : (i : ℕ) → i < length a → i / block_size < length s.blocks
    block_lt i h = omega (arith, total s a held)

    cell_lem :
        (i : ℕ) (x : Item V)
        → i < length a
        → get_elem? a i ≡ some x
        → cell s (i / block_size) (i % block_size) ≡ ok (some x)
    cell_lem i x h e =
        cell_held s a held (i / block_size) (i % block_size) i x (omega arith) (omega arith) h e

    pub less_lem :
        (i j : ℕ) (x y : Item V)
        → i < length a
        → j < length a
        → get_elem? a i ≡ some x
        → get_elem? a j ≡ some y
        → sstack_less s i j ≡ ok (comes_before x.priority y.priority)
    unfolding sstack_less
    less_lem i j x y hi hj ex ey = ground (arith, cell_lem i x hi ex, cell_lem j y hj ey)

    -- The callback changes no item, and a write of an item puts it in the list.
    pub Holds-log : (calls : List (V × Option ℕ)) → Holds (record s { log = calls }) a
    Holds-log calls = record {
      wide = held.wide;
      room = held.room;
      count = held.count;
      free = held.free;
      filled = held.filled;
      place = held.place;
      inside = held.inside;
      edge = held.edge;
    }

    report_held :
        (x : Item V) (i : Option ℕ) → (s' : Sstack V) × (report s (some x) i ≡ ok s') × Holds s' a
    report_held x i =
        let (calls, e) = report_lem s x i in (record s { log = calls }, e, Holds-log calls)

    store_held :
        (i : ℕ) (x : Item V)
        → i < length a
        → (s' : Sstack V) × (store s (i / block_size) (i % block_size) (some x) ≡ ok s')
          × Holds s' (set a i x)
    store_held i x h =
        let at : i / block_size * block_size + i % block_size ≡ i = omega arith in
        let (rows, e, wide, many, filled) =
          store_lem s (i / block_size) (i % block_size) (some x) held.wide (block_lt i h)
            (omega arith) in
        (
          record s { blocks = rows },
          e,
          record {
            wide = wide;
            room = held.room ∙ ap (λ (n : ℕ). n * block_size) (sym many);
            count = held.count ∙ sym (length-set a i x);
            free = held.free;
            filled =
                filled
                ∙ ap (λ (k : ℕ). set (concat s.blocks) k (some x)) at
                ∙ ap (λ (l : List (Option (Item V))). set l i (some x)) held.filled
                ∙ set-padded a held.free i x h;
            place = held.place;
            inside = omega (arith, many, held.inside);
            edge = held.edge;
          },
        )

  swap_runs :
      (s s1 s2 s3 s4 : Sstack V) (i j : ℕ) (x y : Option (Item V))
      → cell s (j / block_size) (j % block_size) ≡ ok y
      → cell s (i / block_size) (i % block_size) ≡ ok x
      → report s y (some i) ≡ ok s1
      → report s1 x (some j) ≡ ok s2
      → store s2 (i / block_size) (i % block_size) y ≡ ok s3
      → store s3 (j / block_size) (j % block_size) x ≡ ok s4
      → sstack_swap s i j ≡ ok s4
  unfolding sstack_swap
  swap_runs s s1 s2 s3 s4 i j x y e1 e2 e3 e4 e5 e6 =
      >>=-ok _ e1 (>>=-ok _ e2 (>>=-ok _ e3 (>>=-ok _ e4 (>>=-ok _ e5 e6))))

  pub swap_lem :
      (s : Sstack V) (a : List (Item V)) (i j : ℕ)
      → Holds s a
      → i < length a
      → j < length a
      → (s' : Sstack V) × (sstack_swap s i j ≡ ok s') × Holds s' (swapped a i j)
  swap_lem s a i j held hi hj =
      let (x, ex) = entry a i hi in
      let (y, ey) = entry a j hj in
      let (s1, e1, held1) = report_held s a held y (some i) in
      let (s2, e2, held2) = report_held s1 a held1 x (some j) in
      let (s3, e3, held3) = store_held s2 a held2 i y hi in
      let (s4, e4, held4) = store_held s3 (set a i y) held3 j x (omega (arith, length-set a i y)) in
      (
        s4,
        swap_runs s s1 s2 s3 s4 i j (some x) (some y) (cell_lem s a held j y hj ey)
            (cell_lem s a held i x hi ex) e1 e2 e3 e4,
        rw (swapped_def a i j x y ex ey) held4,
      )
