-- ===== src/Rlp/Stream/Values.antt =====
-- The methods that read a value or enter and leave a list, behind a tag that Kind found.
use native.Mathlib.Decide.{dec_lt}
use go_fiscobcos.Base.{
  ℕ, ◌+◌, ◌<◌, ◌≡◌, ◌⊎◌, inl, inr, ◌∙◌, refl, sym, ap, List, [], ◌∷◌, ◌++◌, length, arith, none,
  IsU64, length-append, append_assoc, append-nil, lt→ltb, le→ltb,
}
use go_fiscobcos.Rlp.Types.{Kind, byte, string, list, eol}
use go_fiscobcos.Rlp.Head.{put_head}
use go_fiscobcos.Rlp.Writer.Encoding.{string_encoding, list_encoding}
use go_fiscobcos.Rlp.Stream.{
  ListPos, Stream, ok, err, kind, stored, at_end, tag_byte, single, bytes, push_list, enter_list,
  leave, list_end,
}
use go_fiscobcos.Rlp.Stream.Position.{
  Edge, HasRoom, HasRoom-moved, moved, moved-moved, IsAt, IsAt-with, IsReady, IsTagged, after,
  after-IsReady, read_full-ok,
}
use go_fiscobcos.Rlp.Stream.Tags.{kind-byte, Tagging-string, Tagging-list}
use go_fiscobcos.Rlp.Stream.Headers.{kind-head}

pub kind-tagged :
    {edge : Edge} (s : Stream) (k : Kind) (n : ℕ) (b : List ℕ) (st : List ListPos)
    → IsTagged edge s k n b st
    → kind s ≡ ok (k, n) s
unfolding kind stored
kind-tagged s k n b st (p, tag, count, clean) = ground (arith, tag, count, clean)

-- Bytes behind the tag of a string.
bytes-tagged :
    {edge : Edge} (s : Stream) (c rest : List ℕ) (st : List ListPos)
    → IsTagged edge s string (length c) (c ++ rest) st
    → HasRoom (length c) st
    → ((t : Stream) → single c t ≡ ok c t)
    → bytes s ≡ ok c (after (length c) st s)
unfolding bytes
bytes-tagged s c rest st p room canonical =
    rw (kind-tagged s string (length c) (c ++ rest) st p, read_full-ok s c rest st p.0 room)
      (canonical (after (length c) st s))

bytes-byte :
    {edge : Edge} (s : Stream) (x : ℕ) (rest : List ℕ) (st : List ListPos)
    → IsTagged edge s byte 0 rest st
    → s.byteval ≡ x
    → bytes s ≡ ok (x ∷ []) (record s { kind = none })
unfolding bytes tag_byte
bytes-byte s x rest st p value = rw (kind-tagged s byte 0 rest st p, value) refl

-- In front of a string: Kind tells that it is one, and Bytes then reads it.
pub record Text (edge : Edge) (s : Stream) (c rest : List ℕ) (st : List ListPos) : Type 0 where
  pub form : Kind
  pub count : ℕ
  pub tagged : Stream
  pub end : Stream
  pub is_text : (form ≡ byte) ⊎ (form ≡ string)
  pub found : kind s ≡ ok (form, count) tagged
  pub again : kind tagged ≡ ok (form, count) tagged
  pub read : bytes tagged ≡ ok c end
  pub behind : IsReady edge end rest st

pub IsReady-stack :
    {edge : Edge} (s : Stream) (b : List ℕ) {st st' : List ListPos}
    → st ≡ st'
    → IsReady edge s b st
    → IsReady edge s b st'
IsReady-stack s b e p = rw e at p

Text-headed :
    {edge : Edge} (s : Stream) (c rest : List ℕ) (st : List ListPos)
    → IsU64 (length c)
    → IsReady edge s (put_head 0x80 0xB7 (length c) ++ c ++ rest) st
    → HasRoom (length (put_head 0x80 0xB7 (length c) ++ c)) st
    → ((t : Stream) → single c t ≡ ok c t)
    → Text edge s c rest (moved (length (put_head 0x80 0xB7 (length c) ++ c)) st)
Text-headed s c rest st u p room canonical =
    let n : ℕ = length c in
    let h : List ℕ = put_head 0x80 0xB7 n in
    let count : length (h ++ c) ≡ length h + n = length-append h c in
    let room' : HasRoom (length h + n) st = rw count at room in
    let (s', e, p') =
      kind-head s string 0x80 0xB7 n (c ++ rest) st Tagging-string
        (omega (arith, length-append c rest)) u (rw (append_assoc h c rest) at p) room' in
    let behind_it : moved n (moved (length h) st) ≡ moved (length (h ++ c)) st =
      moved-moved (length h) n st ∙ ap (λ (m : ℕ). moved m st) (sym count) in
    let inner = HasRoom-moved (length h) n st room' in
    record {
      form = string;
      count = n;
      tagged = s';
      end = after n (moved (length h) st) s';
      is_text = inr refl;
      found = e;
      again = kind-tagged s' string n (c ++ rest) (moved (length h) st) p';
      read = bytes-tagged s' c rest (moved (length h) st) p' inner canonical;
      behind =
          IsReady-stack (after n (moved (length h) st) s') rest behind_it
            (after-IsReady n s' c rest (moved (length h) st) p'.0 refl);
    }

Text-byte :
    {edge : Edge} (s : Stream) (x : ℕ) (rest : List ℕ) (st : List ListPos)
    → IsReady edge s (x ∷ rest) st
    → HasRoom 1 st
    → x < 128
    → Text edge s (x ∷ []) rest (moved 1 st)
Text-byte s x rest st p room low =
    let ((s', e, p'), value) = kind-byte s x rest st p room low in
    record {
      form = byte;
      count = 0;
      tagged = s';
      end = record s' { kind = none };
      is_text = inl refl;
      found = e;
      again = kind-tagged s' byte 0 rest (moved 1 st) p';
      read = bytes-byte s' x rest (moved 1 st) p' value;
      behind = (IsAt-with s' rest (moved 1 st) none s'.size s'.byteval s'.kinderr p'.0, refl);
    }

bytes-found :
    (s s' : Stream) (t : Kind × ℕ) → kind s ≡ ok t s' → kind s' ≡ ok t s' → bytes s ≡ bytes s'
unfolding bytes
bytes-found s s' t e again = rw (e, again) refl

pub Text-string_encoding :
    {edge : Edge} (s : Stream) (c rest : List ℕ) (st : List ListPos)
    → IsU64 (length c)
    → IsReady edge s (string_encoding c ++ rest) st
    → HasRoom (length (string_encoding c)) st
    → Text edge s c rest (moved (length (string_encoding c)) st)
unfolding single
Text-string_encoding s [] rest st u p room =
    let e : put_head 0x80 0xB7 0 ++ [] ≡ put_head 0x80 0xB7 0 = append-nil (put_head 0x80 0xB7 0) in
    rw e at (Text-headed s [] rest st u (rw (sym e) at p) (rw (sym e) at room) (λ t. refl))
Text-string_encoding s (x ∷ []) rest st u p room = elim (dec_lt x 128) [
  | yes low ↦
      let e = lt→ltb x 128 low in rw e (Text-byte s x rest st (rw e at p) (rw e at room) low)
  | no h ↦
      let e = le→ltb x 128 (omega arith) in
      rw e (Text-headed s (x ∷ []) rest st u (rw e at p) (rw e at room) (λ t. rw e refl))
]
Text-string_encoding s (x ∷ y ∷ c) rest st u p room =
    Text-headed s (x ∷ y ∷ c) rest st u p room (λ t. refl)

-- In front of a list: List enters it.
pub record Entered (edge : Edge) (s : Stream) (payload rest : List ℕ) (st : List ListPos)
    : Type 0 where
  pub tagged : Stream
  pub inside : Stream
  pub found : kind s ≡ ok (list, length payload) tagged
  pub enter : enter_list tagged ≡ ok (length payload) inside
  pub within :
      IsReady edge inside (payload ++ rest) (record { pos = 0; size = length payload } ∷ st)

pub list_found :
    {edge : Edge} (s : Stream) (payload rest : List ℕ) (st : List ListPos)
    → IsU64 (length payload)
    → IsReady edge s (list_encoding payload ++ rest) st
    → HasRoom (length (list_encoding payload)) st
    → Entered edge s payload rest (moved (length (put_head 0xC0 0xF7 (length payload))) st)
unfolding enter_list push_list
list_found s payload rest st u p room =
    let n : ℕ = length payload in
    let h : List ℕ = put_head 0xC0 0xF7 n in
    let (s', e, p') =
      kind-head s list 0xC0 0xF7 n (payload ++ rest) st Tagging-list
        (omega (arith, length-append payload rest)) u (rw (append_assoc h payload rest) at p)
        (rw (length-append h payload) at room) in
    let again = kind-tagged s' list n (payload ++ rest) (moved (length h) st) p' in
    record {
      tagged = s';
      inside = record s' { stack = record { pos = 0; size = n } ∷ s'.stack; kind = none; size = 0 };
      found = e;
      enter = rw again refl;
      within = (
        record {
          input = p'.0.input;
          remaining = p'.0.remaining;
          limited = p'.0.limited;
          stack = ap (λ (t : List ListPos). record { pos = 0; size = n } ∷ t) p'.0.stack;
        },
        refl,
      );
    }

leave-moved :
    (s : Stream) (n : ℕ) (st : List ListPos)
    → s.stack ≡ record { pos = n; size = n } ∷ st
    → HasRoom n st
    → list_end s ≡ ok tt (record s { stack = moved n st; kind = none; size = 0 })
unfolding list_end leave
leave-moved s n [] e room = ground (arith, e)
leave-moved s n (tos ∷ outer) e room = ground (arith, e)

-- ListEnd at the end of a list moves the enclosing one.
pub list_end-ok :
    {edge : Edge} (s : Stream) (n : ℕ) (b : List ℕ) (st : List ListPos)
    → IsAt edge s b (record { pos = n; size = n } ∷ st)
    → HasRoom n st
    → (s' : Stream) × (list_end s ≡ ok tt s') × IsReady edge s' b (moved n st)
list_end-ok {edge = edge} s n b st p room =
    let left : Stream = record s { stack = moved n st; kind = none; size = 0 } in
    let at_b : IsAt edge left b (moved n st) = record {
      input = p.input;
      remaining = p.remaining;
      limited = p.limited;
      stack = refl;
    } in
    (left, leave-moved s n st p.stack room, (at_b, refl))

-- Behind the last element of a list, Kind returns EOL.
pub kind_at_end :
    {edge : Edge} (s : Stream) (n : ℕ) (b : List ℕ) (st : List ListPos)
    → IsReady edge s b (record { pos = n; size = n } ∷ st)
    → kind s ≡ err eol (record s { kinderr = none })
unfolding kind at_end
kind_at_end s n b st (p, free) = ground (arith, p.stack, free)

-- In front of the encoding of a string shorter than 2 ^ 64 bytes, with no tag read, inside of
-- any lists with room for it and with or without an input limit, which allows the encoding if
-- there is one, Bytes returns the string and leaves the stream in front of what follows, with
-- the limit less and the position of the innermost list more by the length of the encoding.
pub bytes-string_encoding :
    {edge : Edge} (s : Stream) (c rest : List ℕ) (st : List ListPos)
    → IsU64 (length c)
    → IsReady edge s (string_encoding c ++ rest) st
    → HasRoom (length (string_encoding c)) st
    → (s' : Stream) × (bytes s ≡ ok c s')
      × IsReady edge s' rest (moved (length (string_encoding c)) st)
unfolding bytes
bytes-string_encoding s c rest st u p room =
    let t = Text-string_encoding s c rest st u p room in
    (t.end, bytes-found s t.tagged _ t.found t.again ∙ t.read, t.behind)
