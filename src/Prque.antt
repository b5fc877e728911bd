-- ===== src/Prque.antt =====
-- common/prque/sstack.go and common/prque/prque.go, a priority queue for values of any type `V`
-- over a stack in blocks. int64 priorities are taken in two's complement, as numbers below 2^64.
pub mod Blocks
pub mod Priority
pub mod Stack
pub mod Ends
pub mod Sortable
pub mod Queue
pub mod Drain
pub mod Lazy
mod Tests
use go_fiscobcos.Base.{
  ℕ, zero, suc, ◌+◌, ◌-◌, ◌*◌, ◌/◌, ◌%◌, ◌^◌, Bool, true, false, ◌&&◌, List, [], ◌∷◌, ◌++◌, length,
  set, replicate, ltb, ◌==◌, if◌then◌else◌, Option, none, some, Outcome, ok, err, panic, ◌>>=◌,
  load, or_panic, sub_u64, ℤ, pos, negsuc,
}
use go_fiscobcos.Heap.{Limit, below_zero, Interface, heap_push, heap_pop, heap_remove}

abbrev pub block_size : ℕ
block_size = 4096

pub record Item (V : Type 0) : Type 0 where
  pub value : V
  pub priority : ℕ

-- `setIndex` says that there is a callback, and `log` has its calls, the last one first; an index of
-- -1 is `none`. `active` is the index in `blocks` of the block that the field of that name shares.
pub record Sstack (V : Type 0) : Type 0 where
  pub set_index : Bool
  pub size : ℕ
  pub capacity : ℕ
  pub offset : ℕ
  pub blocks : List (List (Option (Item V)))
  pub active : ℕ
  pub log : List (V × Option ℕ)

-- `p - q > 0` on int64.
abbrev pub comes_before : ℕ → ℕ → Bool
comes_before p q = let d = sub_u64 p q in ltb 0 d && ltb d (2 ^ 63)

module _ {V : Type 0} where
  unfoldable pub new_block : List (Option (Item V))
  new_block = replicate block_size none

  -- A new stack, for an application that has seen the calls of `log`.
  abbrev pub new_sstack : Bool → List (V × Option ℕ) → Sstack V
  new_sstack set_index log = record {
    set_index = set_index;
    size = 0;
    capacity = block_size;
    offset = 0;
    blocks = new_block ∷ [];
    active = 0;
    log = log;
  }

  -- `s.blocks[b][o]`
  abbrev pub cell : Sstack V → ℕ → ℕ → Outcome Limit (Option (Item V))
  cell s b o = load s.blocks b >>= λ row. load row o

  -- `s.blocks[b][o] = x`
  abbrev pub store : Sstack V → ℕ → ℕ → Option (Item V) → Outcome Limit (Sstack V)
  store s b o x = load s.blocks b >>= λ row.
      load row o >>= λ old. ok (record s { blocks = set s.blocks b (set row o x) })

  -- The callback, where there is one. The value of a nil entry is a nil dereference.
  abbrev pub report : Sstack V → Option (Item V) → Option ℕ → Outcome Limit (Sstack V)
  report s x i =
      if s.set_index
      then (or_panic x >>= λ item. ok (record s { log = (item.value, i) ∷ s.log }))
      else ok s

  -- The block and the offset for the next entry.
  abbrev pub make_room : Sstack V → Outcome Limit (Sstack V)
  make_room s =
      if s.size == s.capacity
      then ok (record s {
        active = length s.blocks;
        blocks = s.blocks ++ new_block ∷ [];
        capacity = s.capacity + block_size;
        offset = 0;
      })
      else if s.offset == block_size
      then (load s.blocks (s.size / block_size) >>= λ row.
          ok (record s { active = s.size / block_size; offset = 0 }))
      else ok s

  unfoldable pub sstack_push : Sstack V → Item V → Outcome Limit (Sstack V)
  sstack_push s x = make_room s >>= λ s1. report s1 (some x) (some s1.size) >>= λ s2.
      store s2 s2.active s2.offset (some x) >>= λ s3.
      ok (record s3 { offset = s3.offset + 1; size = s3.size + 1 })

  -- The entry at the offset `o` of the block `b`, taken out of a stack that has the size `n` then.
  abbrev pub take_out : Sstack V → ℕ → ℕ → ℕ → Outcome Limit (Item V × Sstack V)
  take_out s n b o = cell s b o >>= λ res.
      store (record s { size = n; offset = o; active = b }) b o none >>= λ s1.
      report s1 res none >>= λ s2. or_panic res >>= λ x. ok (x, s2)

  -- A nil entry is returned as it is without a callback; the callers read its value at once, and
  -- panic, which is done here.
  unfoldable pub sstack_pop : Sstack V → Outcome Limit (Item V × Sstack V)
  sstack_pop s = elim s.size [
    | zero ↦ err below_zero
    | suc n ↦ elim s.offset [
      | zero ↦ take_out s n (n / block_size) (block_size - 1)
      | suc o ↦ take_out s n s.active o
    ]
  ]

  abbrev pub sstack_len : Sstack V → ℕ
  sstack_len s = s.size

  unfoldable pub sstack_less : Sstack V → ℕ → ℕ → Outcome Limit Bool
  sstack_less s i j = cell s (i / block_size) (i % block_size) >>= λ x. or_panic x >>= λ a.
      cell s (j / block_size) (j % block_size) >>= λ y.
      or_panic y >>= λ b. ok (comes_before a.priority b.priority)

  unfoldable pub sstack_swap : Sstack V → ℕ → ℕ → Outcome Limit (Sstack V)
  sstack_swap s i j = cell s (j / block_size) (j % block_size) >>= λ a.
      cell s (i / block_size) (i % block_size) >>= λ b. report s a (some i) >>= λ s1.
      report s1 b (some j) >>= λ s2. store s2 (i / block_size) (i % block_size) a >>= λ s3.
      store s3 (j / block_size) (j % block_size) b

  abbrev pub sstack_reset : Sstack V → Sstack V
  sstack_reset s = new_sstack s.set_index s.log

  abbrev pub sstack : Interface (Sstack V) (Item V)
  sstack = record {
    len = sstack_len;
    less = sstack_less;
    swap = sstack_swap;
    push = sstack_push;
    pop = sstack_pop;
  }

  -- The queue is its stack.
  abbrev pub new : Bool → Sstack V
  new set_index = new_sstack set_index []

  pub push : Sstack V → V → ℕ → Outcome Limit (Sstack V)
  push p value priority = heap_push sstack p (record { value = value; priority = priority })

  pub peek : Sstack V → Outcome Limit (V × ℕ)
  peek p = cell p 0 0 >>= or_panic >>= λ x. ok (x.value, x.priority)

  pub pop : Sstack V → Outcome Limit ((V × ℕ) × Sstack V)
  pop p = heap_pop sstack p >>= λ (x, p'). ok ((x.value, x.priority), p')

  pub pop_item : Sstack V → Outcome Limit (V × Sstack V)
  pop_item p = heap_pop sstack p >>= λ (x, p'). ok (x.value, p')

  -- The result is the item, or nil where the index is negative.
  pub remove : Sstack V → ℤ → Outcome Limit (Option (Item V) × Sstack V)
  remove p (negsuc i) = ok (none, p)
  remove p (pos i) = heap_remove sstack p i >>= λ (x, p'). ok (some x, p')

  pub empty : Sstack V → Bool
  empty p = sstack_len p == 0

  pub size : Sstack V → ℕ
  size p = sstack_len p

  pub reset : Sstack V → Sstack V
  reset p = sstack_reset p
