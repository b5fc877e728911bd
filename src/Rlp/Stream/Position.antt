-- ===== src/Rlp/Stream/Position.antt =====
-- Where a stream stands: in front of a value, or behind the tag of one; and what reading does there.
use go_fiscobcos.Base.{
  ℕ, ◌+◌, ◌-◌, ◌≤◌, ◌≡◌, ◌∙◌, refl, sym, ap, Bool, true, false, Bool-cases, if◌then◌else◌, inl, inr,
  append_assoc, append-nil, List, [], ◌∷◌, ◌++◌, length, drop, arith, Option, none, some, IsU64,
  take-append, drop-append, length-append,
}
use go_fiscobcos.Rlp.Types.{Kind, Error}
use go_fiscobcos.Rlp.Stream.{ListPos, Stream, ok, will_read, read_byte, read_full, new_stream}

-- There is room for `n` bytes in the innermost list.
abbrev pub HasRoom : ℕ → List ListPos → Type 0
HasRoom n [] = Unit {0}
HasRoom n (tos ∷ outer) = (tos.pos + n ≤ tos.size) × IsU64 tos.size

abbrev pub moved : ℕ → List ListPos → List ListPos
moved n [] = []
moved n (tos ∷ outer) = record tos { pos = tos.pos + n } ∷ outer

pub moved-moved : (m n : ℕ) (st : List ListPos) → moved n (moved m st) ≡ moved (m + n) st
moved-moved m n [] = refl
moved-moved m n (tos ∷ outer) = ap (λ (p : ℕ). record tos { pos = p } ∷ outer) (omega arith)

pub HasRoom-moved : (m n : ℕ) (st : List ListPos) → HasRoom (m + n) st → HasRoom n (moved m st)
HasRoom-moved m n [] h = tt
HasRoom-moved m n (tos ∷ outer) h = (omega arith, h.1)

pub HasRoom-le : (m n : ℕ) (st : List ListPos) → m ≤ n → HasRoom n st → HasRoom m st
HasRoom-le m n [] le h = tt
HasRoom-le m n (tos ∷ outer) le h = (omega arith, h.1)

-- What there is beyond the bytes that are looked at: the bytes behind them in the reader, whether there
-- is an input limit, and what the limit allows beyond them.
pub record Edge : Type 0 where
  pub beyond : List ℕ
  pub limited : Bool
  pub spare : ℕ

-- The stream has the bytes `b` and those beyond the edge left, its limit, where it has one, allows
-- `b` and what the edge spares, and it is in the lists `st`.
pub record IsAt (edge : Edge) (s : Stream) (b : List ℕ) (st : List ListPos) : Type 0 where
  pub input : s.input ≡ b ++ edge.beyond
  pub limited : s.limited ≡ edge.limited
  pub remaining : edge.limited ≡ true → s.remaining ≡ length b + edge.spare
  pub stack : s.stack ≡ st

-- Only four fields count.
pub IsAt-with :
    {edge : Edge} (s : Stream) (b : List ℕ) (st : List ListPos) (k : Option Kind) (n v : ℕ)
    (e : Option Error)
    → IsAt edge s b st
    → IsAt edge (record s { kind = k; size = n; byteval = v; kinderr = e }) b st
IsAt-with s b st k n v e p = record {
  input = p.input;
  remaining = p.remaining;
  limited = p.limited;
  stack = p.stack;
}

-- It stands in front of a value, with no tag read.
abbrev pub IsReady : Edge → Stream → List ℕ → List ListPos → Type 0
IsReady edge s b st = IsAt edge s b st × (s.kind ≡ none)

-- It has read the tag of a value of kind `k` with `n` bytes of content.
abbrev pub IsTagged : Edge → Stream → Kind → ℕ → List ℕ → List ListPos → Type 0
IsTagged edge s k n b st = IsAt edge s b st × (s.kind ≡ some k) × (s.size ≡ n) × (s.kinderr ≡ none)

-- What `n` bytes leave of the limit.
abbrev left : ℕ → Stream → ℕ
left n s = if s.limited then s.remaining - n else s.remaining

will_read-ok :
    {edge : Edge} (n : ℕ) (s : Stream) (b : List ℕ) (st : List ListPos)
    → IsAt edge s b st
    → n ≤ length b
    → HasRoom n st
    → will_read n s ≡ ok tt (record s { kind = none; stack = moved n st; remaining = left n s })
unfolding will_read
will_read-ok {edge = edge} n s b st p fits room = elim (Bool-cases edge.limited) [
  | inl limit ↦ go st p.stack room (p.limited ∙ limit) (p.remaining limit)
  | inr free ↦ go' st p.stack room (p.limited ∙ free)
]
  where
    go :
        (st : List ListPos)
        → s.stack ≡ st
        → HasRoom n st
        → s.limited ≡ true
        → s.remaining ≡ length b + edge.spare
        → will_read n s ≡ ok tt (record s { kind = none; stack = moved n st; remaining = left n s })
    go [] e room limit count = ground (arith, e, limit, count, fits)
    go (tos ∷ outer) e room limit count = ground (arith, e, limit, count, fits, room)

    go' :
        (st : List ListPos)
        → s.stack ≡ st
        → HasRoom n st
        → s.limited ≡ false
        → will_read n s ≡ ok tt (record s { kind = none; stack = moved n st; remaining = left n s })
    go' [] e room free = ground (arith, e, free)
    go' (tos ∷ outer) e room free = ground (arith, e, free, room)

-- The stream after `n` bytes were read from it.
abbrev pub after : ℕ → List ListPos → Stream → Stream
after n st s = record s {
  kind = none;
  stack = moved n st;
  remaining = left n s;
  input = drop n s.input;
}

-- The bytes that are read are in front of all others.
in_front :
    {edge : Edge} (s : Stream) (c rest : List ℕ) (st : List ListPos)
    → IsAt edge s (c ++ rest) st
    → s.input ≡ c ++ (rest ++ edge.beyond)
in_front {edge = edge} s c rest st p = p.input ∙ append_assoc c rest edge.beyond

pub after-IsReady :
    {edge : Edge} (n : ℕ) (s : Stream) (c rest : List ℕ) (st : List ListPos)
    → IsAt edge s (c ++ rest) st
    → length c ≡ n
    → IsReady edge (after n st s) rest (moved n st)
after-IsReady {edge = edge} n s c rest st p count = (
  record {
    input =
        ap (λ (b : List ℕ). drop n b) (in_front s c rest st p)
        ∙ ap (λ (m : ℕ). drop m (c ++ (rest ++ edge.beyond))) (sym count)
        ∙ drop-append c (rest ++ edge.beyond);
    limited = p.limited;
    remaining = λ limit.
        let kept : s.limited ≡ true = p.limited ∙ limit in
        rw kept (omega (arith, p.remaining limit, length-append c rest));
    stack = refl;
  },
  refl,
)

-- readFull reads the bytes in front.
pub read_full-ok :
    {edge : Edge} (s : Stream) (c rest : List ℕ) (st : List ListPos)
    → IsAt edge s (c ++ rest) st
    → HasRoom (length c) st
    → read_full (length c) s ≡ ok c (after (length c) st s)
unfolding read_full
read_full-ok {edge = edge} s c rest st p room = ground (
  arith,
  will_read-ok (length c) s (c ++ rest) st p (omega (arith, length-append c rest)) room,
  in_front s c rest st p,
  length-append c (rest ++ edge.beyond),
  take-append c (rest ++ edge.beyond),
  drop-append c (rest ++ edge.beyond),
)

pub read_byte-ok :
    {edge : Edge} (s : Stream) (x : ℕ) (rest : List ℕ) (st : List ListPos)
    → IsAt edge s (x ∷ rest) st
    → HasRoom 1 st
    → read_byte s ≡ ok x (after 1 st s)
unfolding read_byte
read_byte-ok s x rest st p room =
    ground (arith, will_read-ok 1 s (x ∷ rest) st p (omega arith) room, p.input)

-- The edge of a new stream whose limit is the length of its input.
abbrev pub at_limit : Edge
at_limit = record { beyond = []; limited = true; spare = 0 }

pub new_stream-IsReady : (b c : List ℕ) → b ≡ c → IsReady at_limit (new_stream b (length b)) c []
unfolding new_stream
new_stream-IsReady b c e =
    let count : length b ≡ length c = ap length e in
    (
      record {
        input = e ∙ sym (append-nil c);
        limited = refl;
        remaining = λ limit. ground (arith, count);
        stack = refl;
      },
      refl,
    )

-- The edge of a stream behind `c`, with `more` behind it in the reader.
abbrev pub edge_behind : Stream → List ℕ → List ℕ → Edge
edge_behind s c more = record { beyond = more; limited = s.limited; spare = s.remaining - length c }

-- Any stream whose limit, if there is one, allows the bytes in front of it.
pub IsReady-edge_behind :
    (s : Stream) (c more : List ℕ)
    → s.input ≡ c ++ more
    → (s.limited ≡ true → length c ≤ s.remaining)
    → s.kind ≡ none
    → IsReady (edge_behind s c more) s (c ++ []) s.stack
IsReady-edge_behind s c more e allowed free = (
  record {
    input = e ∙ ap (λ (b : List ℕ). b ++ more) (sym (append-nil c));
    limited = refl;
    remaining = λ limit. omega (arith, allowed limit, length-append c []);
    stack = refl;
  },
  free,
)
