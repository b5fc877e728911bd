-- ===== src/Rlp/Stream/Tags.antt =====
-- Kind in front of an encoding: what it returns, and where it leaves the stream.
use go_fiscobcos.Base.{
  ℕ, ◌+◌, ◌≤◌, ◌<◌, ◌≡◌, ◌∙◌, refl, ap, false, List, [], ◌∷◌, ◌++◌, length, arith, none, some,
  be_value, IsU64,
}
use go_fiscobcos.Rlp.Types.{Kind, byte, string, list}
use go_fiscobcos.Rlp.Head.{put_int}
use go_fiscobcos.Rlp.Head.Size.{put_int_lem, put_int_lead}
use go_fiscobcos.Rlp.Stream.{
  ListPos, Stream, Reply, ok, follow, read_byte, read_uint, Tag, tag_of_byte, first_byte, read_kind,
  keep_tag, kind, at_end, long_tag,
}
use go_fiscobcos.Rlp.Stream.Position.{
  Edge, HasRoom, HasRoom-le, HasRoom-moved, moved, IsAt, IsAt-with, IsReady, IsTagged, after,
  after-IsReady, read_full-ok, read_byte-ok,
}

-- readUint reads back what putint wrote for a number that is not 0.
read_uint-digits :
    {edge : Edge} (s : Stream) (x : ℕ) (t rest : List ℕ) (st : List ListPos)
    → IsAt edge s ((x ∷ t) ++ rest) st
    → HasRoom (length (x ∷ t)) st
    → 0 < x
    → read_uint (length (x ∷ t)) s ≡ ok (be_value 0 (x ∷ t)) (after (length (x ∷ t)) st s)
unfolding read_uint
read_uint-digits s x [] rest st p room lead =
    read_byte-ok s x rest st p room ∙ ap (λ (v : ℕ). ok v (after 1 st s)) (omega arith)
read_uint-digits s x (y ∷ t) rest st p room lead =
    ground (arith, read_full-ok s (x ∷ y ∷ t) rest st p room)

pub read_uint-put_int :
    {edge : Edge} (s : Stream) (n : ℕ) (rest : List ℕ) (st : List ListPos)
    → IsAt edge s (put_int n ++ rest) st
    → HasRoom (length (put_int n)) st
    → IsU64 n
    → 0 < n
    → read_uint (length (put_int n)) s ≡ ok n (after (length (put_int n)) st s)
read_uint-put_int s n rest st p room u above =
    let (x, t, e, lead) = put_int_lead n u above in
    let value : be_value 0 (x ∷ t) ≡ n = rw e at (put_int_lem n u).1 in
    rw e (
      read_uint-digits s x t rest st (rw e at p) (rw e at room) lead
      ∙ ap (λ (v : ℕ). ok v (after (length (x ∷ t)) st s)) value)

at_end-HasRoom : (st : List ListPos) → HasRoom 1 st → at_end st ≡ false
unfolding at_end
at_end-HasRoom [] room = refl
at_end-HasRoom (tos ∷ outer) room = ground arith

keep_tag-ok :
    {edge : Edge} (k : Kind) (n : ℕ) (s : Stream) (b : List ℕ) (st : List ListPos)
    → IsAt edge s b st
    → n ≤ length b
    → HasRoom n st
    → keep_tag (record { kind = k; size = n; error = none }) s
      ≡ ok (k, n) (record s { kind = some k; size = n; kinderr = none })
unfolding keep_tag
keep_tag-ok k n s b [] p fits room = ground (arith, p.stack, p.limited, p.remaining)
keep_tag-ok k n s b (tos ∷ outer) p fits room = ground (arith, p.stack, p.limited, p.remaining)

-- The stream that Kind reads the tag from.
abbrev pub cleared : Stream → Stream
cleared s = record s { kind = none; kinderr = none }

read_kind-ok : (s s' : Stream) (x : ℕ) → read_byte s ≡ ok x s' → read_kind s ≡ tag_of_byte x s'
unfolding read_kind first_byte
read_kind-ok s s' x e = ap first_byte e

-- Kind reads a byte, the tag that it begins, and checks the size.
kind-tag :
    {edge : Edge} (s : Stream) (x : ℕ) (rest : List ℕ) (st : List ListPos)
    → IsReady edge s (x ∷ rest) st
    → HasRoom 1 st
    → kind s ≡ follow (tag_of_byte x (after 1 st (cleared s))) keep_tag
unfolding kind
kind-tag s x rest st (p, free) room =
    let p' = IsAt-with s (x ∷ rest) st none s.size s.byteval none p in
    let first = read_byte-ok (cleared s) x rest st p' room in
    let open_list : at_end s.stack ≡ false = rw p.stack (at_end-HasRoom st room) in
    rw (free, open_list)
      (ap (λ (r : Reply Tag). follow r keep_tag)
        (read_kind-ok (cleared s) (after 1 st (cleared s)) x first))

-- The tag that Kind finds, with the stream behind it.
abbrev pub Found : Edge → Stream → Kind → ℕ → List ℕ → List ListPos → Type 0
Found edge s k n b st = (s' : Stream) × (kind s ≡ ok (k, n) s') × IsTagged edge s' k n b st

-- A tag that is accepted, in front of its content.
pub found :
    {edge : Edge} (s : Stream) (k : Kind) (x n : ℕ) (rest b : List ℕ) (st st' : List ListPos)
    (t : Stream)
    → IsReady edge s (x ∷ rest) st
    → HasRoom 1 st
    → tag_of_byte x (after 1 st (cleared s)) ≡ ok (record { kind = k; size = n; error = none }) t
    → IsAt edge t b st'
    → n ≤ length b
    → HasRoom n st'
    → (f : Found edge s k n b st') × (f.0.byteval ≡ t.byteval)
found s k x n rest b st st' t p room tag q fits more =
    let kept = keep_tag-ok k n t b st' q fits more in
    let all = kind-tag s x rest st p room ∙ ap (λ (r : Reply Tag). follow r keep_tag) tag ∙ kept in
    let q' = IsAt-with t b st' (some k) n t.byteval none q in
    ((record t { kind = some k; size = n; kinderr = none }, all, (q', refl, refl, refl)), refl)

pub kind-byte :
    {edge : Edge} (s : Stream) (x : ℕ) (rest : List ℕ) (st : List ListPos)
    → IsReady edge s (x ∷ rest) st
    → HasRoom 1 st
    → x < 128
    → (f : Found edge s byte 0 rest (moved 1 st)) × (f.0.byteval ≡ x)
unfolding tag_of_byte
kind-byte s x rest st p room low =
    let s' : Stream = after 1 st (cleared s) in
    let p' = IsAt-with s (x ∷ rest) st none s.size s.byteval none p.0 in
    let q = after-IsReady 1 (cleared s) (x ∷ []) rest st p' refl in
    found s byte x 0 rest rest st (moved 1 st) (record s' { byteval = x }) p room (ground arith)
      (IsAt-with s' rest (moved 1 st) s'.kind s'.size x none q.0) (omega arith)
      (HasRoom-moved 1 0 st (HasRoom-le 1 (1 + 0) st (omega arith) room))

-- How the tags of strings and of lists begin.
pub record Tagging (k : Kind) (small large : ℕ) : Type 0 where
  pub small_lt : small < 200
  pub large_lt : large < 248
  pub short :
      (n : ℕ) (s : Stream)
      → n < 56
      → tag_of_byte (small + n) s
        ≡ ok (record { kind = k; size = n; error = none }) (record s { byteval = 0 })
  pub long :
      (l : ℕ) (s : Stream)
      → 1 ≤ l
      → l ≤ 8
      → tag_of_byte (large + l) s ≡ long_tag k (read_uint l (record s { byteval = 0 }))

pub Tagging-string : Tagging string 0x80 0xB7
unfolding tag_of_byte
Tagging-string = record {
  small_lt = omega arith;
  large_lt = omega arith;
  short = λ n s h. ground arith;
  long = λ l s lo hi. ground arith;
}

pub Tagging-list : Tagging list 0xC0 0xF7
unfolding tag_of_byte
Tagging-list = record {
  small_lt = omega arith;
  large_lt = omega arith;
  short = λ n s h. ground arith;
  long = λ l s lo hi. ground arith;
}
