-- ===== src/Rlp/Buffer/Lists.antt =====
-- list and listEnd: the header that was reserved gets the size of what came after it.
use go_fiscobcos.Base.{
  ℕ, ◌+◌, ◌-◌, ◌≡◌, ◌∙◌, refl, ap, List, [], ◌∷◌, ◌++◌, length, get_elem?, set, some, arith,
  append_assoc,
}
use go_fiscobcos.Rlp.Head.{head_size}
use go_fiscobcos.Rlp.Head.Size.{head_size_cases}
use go_fiscobcos.Rlp.Buffer
use go_fiscobcos.Rlp.Buffer.{ListHead, EncBuf, size, list_end}

module _ {ℓ} {A : Type ℓ} (x : A) (ys : List A) where
  get_elem?-append : (xs : List A) → get_elem? (xs ++ x ∷ ys) (length xs) ≡ some x
  get_elem?-append [] = refl
  get_elem?-append (z ∷ xs) = get_elem?-append xs

  set-append : (y : A) (xs : List A) → set (xs ++ x ∷ ys) (length xs) y ≡ xs ++ y ∷ ys
  set-append y [] = refl
  set-append y (z ∷ xs) = ap (◌∷◌ z) (set-append y xs)

list_end-found :
    (i : ℕ) (w : EncBuf) (lh : ListHead)
    → get_elem? w.lheads i ≡ some lh
    → list_end i w ≡ record w {
      lheads = set w.lheads i (record lh { size = size w - lh.offset - lh.size });
      lhsize = w.lhsize + head_size (size w - lh.offset - lh.size);
    }
unfolding list_end
list_end-found i w lh e = ground (arith, e, head_size_cases (size w - lh.offset - lh.size))

-- The list that was begun at `w`, at the end of what `heads` and more string data have added.
pub list_end_lem :
    (w w' : EncBuf) (heads : List ListHead) (n : ℕ)
    → w'.lheads ≡ (Buffer.list w).1.lheads ++ heads
    → size w' ≡ size w + n
    → list_end (Buffer.list w).0 w' ≡ record w' {
      lheads = w.lheads ++ record { offset = length w.str; size = n } ∷ heads;
      lhsize = w'.lhsize + head_size n;
    }
unfolding Buffer.list
list_end_lem w w' heads n grows total =
    let lh : ListHead = record { offset = length w.str; size = w.lhsize } in
    let there : w'.lheads ≡ w.lheads ++ lh ∷ heads =
      grows ∙ append_assoc w.lheads (lh ∷ []) heads in
    let found : get_elem? w'.lheads (length w.lheads) ≡ some lh =
      rw there (get_elem?-append lh heads w.lheads) in
    let amount : size w' - length w.str - w.lhsize ≡ n = omega arith in
    list_end-found (length w.lheads) w' lh found ∙ rw (amount, there, set-append)

pub list-str : (w : EncBuf) → (Buffer.list w).1.str ≡ w.str
unfolding Buffer.list
list-str w = refl

pub list-lhsize : (w : EncBuf) → (Buffer.list w).1.lhsize ≡ w.lhsize
unfolding Buffer.list
list-lhsize w = refl
