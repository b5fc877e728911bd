-- ===== src/Rlp/Stream/Headers.antt =====
-- Kind in front of the header of a string or a list.
use native.Mathlib.Decide.{dec_lt}
use go_fiscobcos.Base.{
  ℕ, suc, ◌+◌, ◌≤◌, ◌<◌, ◌≡◌, ◌∙◌, refl, ap, List, [], ◌∷◌, ◌++◌, length, arith, none, IsU64,
}
use go_fiscobcos.Rlp.Types.{Kind}
use go_fiscobcos.Rlp.Head.{put_int, put_head}
use go_fiscobcos.Rlp.Head.Size.{put_int_lem, put_head_short, put_head_long}
use go_fiscobcos.Rlp.Stream.{ListPos, Stream, ok, long_tag}
use go_fiscobcos.Rlp.Stream.Position.{
  Edge, HasRoom, HasRoom-le, HasRoom-moved, moved, moved-moved, IsAt-with, IsReady, after,
  after-IsReady,
}
use go_fiscobcos.Rlp.Stream.Tags.{Tagging, Found, found, cleared, read_uint-put_int}

long_enough :
    (k : Kind) (n : ℕ) (t : Stream)
    → 56 ≤ n
    → long_tag k (ok n t) ≡ ok (record { kind = k; size = n; error = none }) t
unfolding long_tag
long_enough k n t h = ground arith

module _ (s : Stream) (k : Kind) (small large : ℕ) (n : ℕ) (b : List ℕ) (st : List ListPos)
    (tagging : Tagging k small large) (fits : n ≤ length b) where
  Found-short :
      {edge : Edge}
      → n < 56
      → IsReady edge s ((small + n) ∷ b) st
      → HasRoom (1 + n) st
      → Found edge s k n b (moved 1 st)
  Found-short h p room =
      let s' : Stream = after 1 st (cleared s) in
      let p' = IsAt-with s ((small + n) ∷ b) st none s.size s.byteval none p.0 in
      let q = after-IsReady 1 (cleared s) ((small + n) ∷ []) b st p' refl in
      (found s k (small + n) n b b st (moved 1 st) (record s' { byteval = 0 }) p
        (HasRoom-le 1 (1 + n) st (omega arith) room) (tagging.short n s' h)
        (IsAt-with s' b (moved 1 st) s'.kind s'.size 0 s'.kinderr q.0) fits
        (HasRoom-moved 1 n st room)).0

  Found-long :
      {edge : Edge}
      → 56 ≤ n
      → IsU64 n
      → IsReady edge s ((large + length (put_int n)) ∷ put_int n ++ b) st
      → HasRoom (suc (length (put_int n)) + n) st
      → Found edge s k n b (moved (suc (length (put_int n))) st)
  Found-long h u p room =
      let l : ℕ = length (put_int n) in
      let rest : List ℕ = put_int n ++ b in
      let s' : Stream = after 1 st (cleared s) in
      let p' = IsAt-with s ((large + l) ∷ rest) st none s.size s.byteval none p.0 in
      let q = after-IsReady 1 (cleared s) ((large + l) ∷ []) rest st p' refl in
      let s'' : Stream = record s' { byteval = 0 } in
      let q' = IsAt-with s' rest (moved 1 st) s'.kind s'.size 0 s'.kinderr q.0 in
      let room' =
        HasRoom-moved 1 (l + n) st (HasRoom-le (1 + (l + n)) (suc l + n) st (omega arith) room) in
      let digits =
        read_uint-put_int s'' n b (moved 1 st) q'
          (HasRoom-le l (l + n) (moved 1 st) (omega arith) room') u (omega arith) in
      let t : Stream = after l (moved 1 st) s'' in
      let tag : long_tag k (ok n t) ≡ ok (record { kind = k; size = n; error = none }) t =
        long_enough k n t h in
      let int = put_int_lem n u in
      let both = after-IsReady l s'' (put_int n) b (moved 1 st) q' refl in
      let one : 1 + l ≡ suc l = omega arith in
      rw⁻¹ (moved-moved 1 l st ∙ ap (λ (m : ℕ). moved m st) one)
        (found s k (large + l) n rest b st (moved l (moved 1 st)) t p
          (HasRoom-le 1 (suc l + n) st (omega arith) room)
          (tagging.long l s' (omega (arith, int)) (omega (arith, int))
            ∙ ap (long_tag k) digits
            ∙ tag)
          both.0 fits (HasRoom-moved l n (moved 1 st) room')).0

  pub kind-head :
      {edge : Edge}
      → IsU64 n
      → IsReady edge s (put_head small large n ++ b) st
      → HasRoom (length (put_head small large n) + n) st
      → Found edge s k n b (moved (length (put_head small large n)) st)
  kind-head u p room = elim (dec_lt n 56) [
    | yes h ↦
        let e = put_head_short small large n tagging.small_lt h in
        rw e (Found-short h (rw e at p) (rw e at room))
    | no h ↦
        let e = put_head_long small large n tagging.large_lt (omega arith) u in
        rw e (Found-long (omega arith) u (rw e at p) (rw e at room))
  ]
