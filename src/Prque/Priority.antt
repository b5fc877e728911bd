-- ===== src/Prque/Priority.antt =====
-- Priorities that wrap around: those that lie within 2^63 above a base are in order.
use go_fiscobcos.Base.{ℕ, ◌^◌, ◌<◌, ◌≡◌, ltb, sub_u64, IsU64, arith}
use go_fiscobcos.Prque.{comes_before}

-- How far a priority is above the base.
abbrev pub rank : ℕ → ℕ → ℕ
rank base p = sub_u64 p base

-- The base may be any number below 2^64.
pub record IsInWindow (base p : ℕ) : Type 0 where
  pub word : IsU64 p
  pub near : rank base p < 2 ^ 63

-- For int64 priorities within 2 ^ 63 above a base, modulo 2 ^ 64, the test of Less, that the
-- difference with its wrap-around is positive, is the order of the distances from the base.
pub comes_before_lem :
    (base p q : ℕ)
    → IsU64 base
    → IsInWindow base p
    → IsInWindow base q
    → comes_before p q ≡ ltb (rank base q) (rank base p)
comes_before_lem base p q hb hp hq = ground (arith, hp.word, hp.near, hq.word, hq.near, hb)
