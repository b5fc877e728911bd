-- ===== src/Heap/Order.antt =====
-- The order of a heap, of which the first `n` entries count.
use mathlib.Core.List.{Perm}
use mathlib.Core.List.Perm
use go_fiscobcos.Base.{ℕ, zero, suc, ◌≤◌, ◌<◌, ◌≡◌, ◌≢◌, ◌∙◌, refl, List, length, get_elem?, arith}
use go_fiscobcos.Heap.{parent}
use go_fiscobcos.Heap.Array.{key_at, swapped, swapped-perm, length-swapped, get_elem?-other}

module _ {A : Type 0} (key : A → ℕ) where
  abbrev pub IsHeap : ℕ → List A → Type 0
  IsHeap n a = (c : ℕ) → 0 < c → c < n → key_at key a (parent c) ≤ key_at key a c

  -- The entries around `i` are in order without it: its parent's key is no greater than its
  -- children's.
  abbrev pub IsBridged : ℕ → List A → ℕ → Type 0
  IsBridged n a i =
      (c : ℕ) → 0 < i → 0 < c → c < n → parent c ≡ i → key_at key a (parent i) ≤ key_at key a c

  -- Only the entry at `i` may be out of order, towards its parent or its children.
  pub record IsLoose (n : ℕ) (a : List A) (i : ℕ) : Type 0 where
    pub edges :
        (c : ℕ) → 0 < c → c < n → c ≢ i → parent c ≢ i → key_at key a (parent c) ≤ key_at key a c
    pub bridged : IsBridged n a i

  -- Towards its parent only.
  abbrev pub IsAboveChildren : ℕ → List A → ℕ → Type 0
  IsAboveChildren n a i = (c : ℕ) → 0 < c → c < n → parent c ≡ i → key_at key a i ≤ key_at key a c

  -- Towards its children only.
  abbrev pub IsBelowParent : List A → ℕ → Type 0
  IsBelowParent a i = 0 < i → key_at key a (parent i) ≤ key_at key a i

  pub IsHeap-settled :
      (n : ℕ) (a : List A) (i : ℕ)
      → IsLoose n a i
      → IsAboveChildren n a i
      → IsBelowParent a i
      → IsHeap n a
  IsHeap-settled n a i v down up c pos h = grind (arith, v.edges c, down c, up)

  root_least_upto :
      (k n : ℕ) (a : List A) (i : ℕ) → IsHeap n a → i ≤ k → i < n → key_at key a 0 ≤ key_at key a i
  root_least_upto k n a zero heap h p = omega arith
  root_least_upto zero n a (suc i) heap h p = absurd (omega arith)
  root_least_upto (suc k) n a (suc i) heap h p = omega (
    arith,
    heap (suc i) (omega arith) p,
    root_least_upto k n a (parent (suc i)) heap (omega arith) (omega arith),
  )

  pub root_least :
      (n : ℕ) (a : List A) (i : ℕ) → IsHeap n a → i < n → key_at key a 0 ≤ key_at key a i
  root_least n a i heap h = root_least_upto i n a i heap (omega arith) h

  pub IsHeap-less : (m n : ℕ) (a : List A) → m ≤ n → IsHeap n a → IsHeap m a
  IsHeap-less m n a le heap c pos h = heap c pos (omega arith)

-- `b` holds the entries of `a`, and from `n` on at the same places.
pub record Rearranged {A : Type 0} (n : ℕ) (b a : List A) : Type 0 where
  pub perm : Perm b a
  pub size : length b ≡ length a
  pub kept : (c : ℕ) → n ≤ c → get_elem? b c ≡ get_elem? a c

pub Rearranged-refl : {A : Type 0} (n : ℕ) (a : List A) → Rearranged n a a
Rearranged-refl n a = record { perm = Perm.refl a; size = refl; kept = λ c h. refl }

pub Rearranged-trans :
    {A : Type 0} {n : ℕ} {c b a : List A} → Rearranged n c b → Rearranged n b a → Rearranged n c a
Rearranged-trans p q = record {
  perm = Perm.trans p.perm q.perm;
  size = p.size ∙ q.size;
  kept = λ c h. p.kept c h ∙ q.kept c h;
}

pub Rearranged-swapped :
    {A : Type 0} (n : ℕ) (a : List A) (i j : ℕ)
    → i < n
    → j < n
    → n ≤ length a
    → Rearranged n (swapped a i j) a
Rearranged-swapped n a i j hi hj fits =
    let pi : i < length a = omega arith in
    let pj : j < length a = omega arith in
    record {
      perm = swapped-perm a i j pi pj;
      size = length-swapped a i j pi pj;
      kept = λ c h. get_elem?-other a i j pi pj c (λ e. omega (arith, e)) (λ e. omega (arith, e));
    }
