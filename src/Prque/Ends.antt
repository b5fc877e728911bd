-- ===== src/Prque/Ends.antt =====
-- Push and Pop of the stack in blocks, at the ends of a block and within it.
use native.Mathlib.Decide.{ℕ_discrete}
use go_fiscobcos.Base.{
  get_elem?-back, ℕ, suc, ◌+◌, ◌-◌, ◌*◌, ◌/◌, ◌<◌, ◌≡◌, ◌∙◌, refl, sym, ap, List, [], ◌∷◌, ◌++◌,
  length, get_elem?, set, Option, none, some, ok, All-append, length-append, length-replicate,
  >>=-ok, append-nil, append_assoc, arith,
}
use go_fiscobcos.Heap.Array.{entry}
use go_fiscobcos.Prque.{
  Item, Sstack, block_size, new_block, make_room, store, take_out, sstack_push, sstack_pop,
}
use go_fiscobcos.Prque.Blocks.{concat, padded, padded-added, padded-freed, padded-more}
use go_fiscobcos.Prque.Stack.{Holds, total, cell_held, store_lem, report_lem, Holds-log}

pub length-new_block : (V : Type 0) → length {A = Option (Item V)} new_block ≡ block_size
unfolding new_block
length-new_block V = length-replicate {A = Option (Item V)} block_size none

module _ {V : Type 0} where
  concat-append :
      (rows : List (List (Option (Item V)))) (row : List (Option (Item V)))
      → concat (rows ++ row ∷ []) ≡ concat rows ++ row
  concat-append [] row = append-nil row
  concat-append (r ∷ rows) row =
      ap (λ t. r ++ t) (concat-append rows row) ∙ sym (append_assoc r (concat rows) row)

  -- A block is added.
  Holds-new_block :
      (s : Sstack V) (a : List (Item V))
      → Holds s a
      → s.size ≡ s.capacity
      → Holds
          (record s {
            active = length s.blocks;
            blocks = s.blocks ++ new_block ∷ [];
            capacity = s.capacity + block_size;
            offset = 0;
          })
          a
  unfolding new_block
  Holds-new_block s a held full =
      let more : length (s.blocks ++ new_block ∷ []) ≡ length s.blocks + 1 =
        length-append s.blocks (new_block ∷ []) in
      record {
        wide = All-append _ s.blocks (new_block ∷ []) held.wide (length-new_block V, tt);
        room = omega (arith, held.room, more);
        count = held.count;
        free = held.free + block_size;
        filled =
            concat-append s.blocks new_block
            ∙ ap (λ t. t ++ new_block) held.filled
            ∙ padded-more a held.free block_size;
        place = omega (arith, full, held.room);
        inside = omega (arith, more);
        edge = omega arith;
      }

  -- What Push needs: a free place in the active block.
  make_room_lem :
      (s : Sstack V) (a : List (Item V))
      → Holds s a
      → (s' : Sstack V) × (make_room s ≡ ok s') × Holds s' a × (s'.offset < block_size)
  make_room_lem s a held = elim (ℕ_discrete s.size s.capacity) [
    | yes full ↦ (_, ground (arith, full), Holds-new_block s a held full, ground arith)
    | no free ↦ elim (ℕ_discrete s.offset block_size) [
      | no within ↦ (s, ground (arith, free, within), held, omega (arith, within, held.edge))
      | yes over ↦
          let next : ℕ = s.size / block_size in
          let at : next ≡ s.active + 1 = omega (arith, held.place, over) in
          let more : next < length s.blocks =
            omega (arith, held.place, held.room, held.inside, over, free, at) in
          let (row, found) = entry s.blocks next more in
          (
            record s { active = next; offset = 0 },
            ground (arith, free, over, found),
            record {
              wide = held.wide;
              room = held.room;
              count = held.count;
              free = held.free;
              filled = held.filled;
              place = omega (arith, held.place, over, at);
              inside = more;
              edge = omega arith;
            },
            omega arith,
          )
    ]
  ]

  -- The item is written behind the others.
  store_next :
      (s : Sstack V) (a : List (Item V)) (x : Item V)
      → Holds s a
      → s.offset < block_size
      → (s' : Sstack V) × (store s s.active s.offset (some x) ≡ ok s')
        × Holds (record s' { offset = s'.offset + 1; size = s'.size + 1 }) (a ++ x ∷ [])
  store_next s a x held within =
      let (rows, e, wide, many, filled) =
        store_lem s s.active s.offset (some x) held.wide held.inside within in
      let at : s.active * block_size + s.offset ≡ length a = held.place ∙ held.count in
      let one_free : held.free ≡ suc (held.free - 1) =
        omega (arith, total s a held, at, held.inside) in
      (
        record s { blocks = rows },
        e,
        record {
          wide = wide;
          room = held.room ∙ ap (λ (n : ℕ). n * block_size) (sym many);
          count = omega (arith, held.count, length-append a (x ∷ []));
          free = held.free - 1;
          filled =
              filled
              ∙ ap (λ (k : ℕ). set (concat s.blocks) k (some x)) at
              ∙ ap (λ (l : List (Option (Item V))). set l (length a) (some x)) held.filled
              ∙ ap (λ (k : ℕ). set (padded a k) (length a) (some x)) one_free
              ∙ padded-added a (held.free - 1) x;
          place = omega (arith, held.place);
          inside = omega (arith, many, held.inside);
          edge = omega arith;
        },
      )

  pub sstack_push_lem :
      (s : Sstack V) (a : List (Item V)) (x : Item V)
      → Holds s a
      → (s' : Sstack V) × (sstack_push s x ≡ ok s') × Holds s' (a ++ x ∷ [])
  unfolding sstack_push
  sstack_push_lem s a x held =
      let (s1, e1, held1, within) = make_room_lem s a held in
      let (calls, e2) = report_lem s1 x (some s1.size) in
      let held2 = Holds-log s1 a held1 calls in
      let (s3, e3, held3) = store_next (record s1 { log = calls }) a x held2 within in
      (
        record s3 { offset = s3.offset + 1; size = s3.size + 1 },
        >>=-ok _ e1 (>>=-ok _ e2 (>>=-ok _ e3 refl)),
        held3,
      )

  -- The last item is taken out of its place.
  take_out_lem :
      (s : Sstack V) (front : List (Item V)) (x : Item V) (n b o : ℕ)
      → Holds s (front ++ x ∷ [])
      → s.size ≡ suc n
      → b * block_size + o ≡ n
      → o < block_size
      → (s' : Sstack V) × (take_out s n b o ≡ ok (x, s')) × Holds s' front
  take_out_lem s front x n b o held size at within =
      let a : List (Item V) = front ++ x ∷ [] in
      let count : n ≡ length front =
        omega (arith, held.count, size, length-append front (x ∷ [])) in
      let last : get_elem? a n ≡ some x =
        ap (get_elem? a) (count ∙ omega arith) ∙ get_elem?-back front (x ∷ []) 0 in
      let there = cell_held s a held b o n x at within (omega (arith, held.count, size)) last in
      let row : b < length s.blocks = omega (arith, total s a held, held.count, size, at) in
      let (rows, e, wide, many, filled) =
        store_lem (record s { size = n; offset = o; active = b }) b o none held.wide row within in
      let (calls, e') =
        report_lem (record s { size = n; offset = o; active = b; blocks = rows }) x none in
      (
        record s { size = n; offset = o; active = b; blocks = rows; log = calls },
        >>=-ok _ there (>>=-ok _ e (>>=-ok _ e' refl)),
        record {
          wide = wide;
          room = held.room ∙ ap (λ (n : ℕ). n * block_size) (sym many);
          count = count;
          free = suc held.free;
          filled =
              filled
              ∙ ap (λ (k : ℕ). set (concat s.blocks) k none) (at ∙ count)
              ∙ ap (λ (l : List (Option (Item V))). set l (length front) none) held.filled
              ∙ padded-freed front held.free x;
          place = at;
          inside = omega (arith, many, row);
          edge = omega (arith, within);
        },
      )

  sstack_pop_back :
      (s : Sstack V) (n : ℕ)
      → s.size ≡ suc n
      → s.offset ≡ 0
      → sstack_pop s ≡ take_out s n (n / block_size) (block_size - 1)
  unfolding sstack_pop
  sstack_pop_back s n e e' = rw (e, e') refl

  sstack_pop_within :
      (s : Sstack V) (n o : ℕ)
      → s.size ≡ suc n
      → s.offset ≡ suc o
      → sstack_pop s ≡ take_out s n s.active o
  unfolding sstack_pop
  sstack_pop_within s n o e e' = rw (e, e') refl

  pub sstack_pop_lem :
      (s : Sstack V) (front : List (Item V)) (x : Item V)
      → Holds s (front ++ x ∷ [])
      → (s' : Sstack V) × (sstack_pop s ≡ ok (x, s')) × Holds s' front
  sstack_pop_lem s front x held =
      let n : ℕ = length front in
      let size : s.size ≡ suc n = omega (arith, held.count, length-append front (x ∷ [])) in
      elim (ℕ_discrete s.offset 0) [
        | yes start ↦
            let (s', e, held') =
              take_out_lem s front x n (n / block_size) (block_size - 1) held size
                (omega (arith, held.place, start, size)) (omega arith) in
            (s', sstack_pop_back s n size start ∙ e, held')
        | no within ↦
            let o : ℕ = s.offset - 1 in
            let at : s.offset ≡ suc o = omega (arith, within) in
            let (s', e, held') =
              take_out_lem s front x n s.active o held size
                (omega (arith, held.place, size, within)) (omega (arith, held.edge, within)) in
            (s', sstack_pop_within s n o size at ∙ e, held')
      ]
