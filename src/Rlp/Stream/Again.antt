-- ===== src/Rlp/Stream/Again.antt =====
-- A second call of Kind.
use go_fiscobcos.Base.{
  ℕ, ◌≡◌, ◌∙◌, sym, refl, Bool-cases, Option-cases, inl, inr, none, some, arith,
}
use go_fiscobcos.Rlp.Types.{Kind}
use go_fiscobcos.Rlp.Stream.{
  Stream, Reply, ok, err, stuck, follow, kind, stored, at_end, read_kind, Tag, keep_tag,
}

stored-again :
    (k : Kind) (s s' : Stream) (t : Kind × ℕ)
    → s.kind ≡ some k
    → stored k s ≡ ok t s'
    → kind s' ≡ ok t s'
unfolding stored kind
stored-again k s s' t e found = elim (Option-cases s.kinderr) [
  | inl clean ↦
      let here : stored k s ≡ ok (k, s.size) s = ground (arith, clean) in
      let both : ok (k, s.size) s ≡ ok t s' = sym here ∙ found in
      let there : kind s ≡ ok (k, s.size) s = ground (arith, e, clean) in
      ground (arith, both, there)
  | inr (x, bad) ↦ ground (arith, found, bad)
]

keep_tag-again :
    (tag : Tag) (s s' : Stream) (t : Kind × ℕ) → keep_tag tag s ≡ ok t s' → kind s' ≡ ok t s'
unfolding keep_tag
keep_tag-again tag s s' t found = stored-again tag.kind _ s' t refl found

follow_inv {ℓ κ} :
    {A : Type ℓ} {B : Type κ} (r : Reply A) (f : A → Stream → Reply B) (b : B) (s' : Stream)
    → follow r f ≡ ok b s'
    → (a : A) × (s : Stream) × (f a s ≡ ok b s')
follow_inv (ok a s) f b s' e = (a, s, e)
follow_inv (err x s) f b s' e = cc
follow_inv stuck f b s' e = cc

-- Where Kind succeeds, a second call at the stream that it leaves returns the same kind and
-- size and changes nothing.
pub kind_again : (s s' : Stream) (t : Kind × ℕ) → kind s ≡ ok t s' → kind s' ≡ ok t s'
unfolding kind
kind_again s s' t found = elim (Option-cases s.kind) [
  | inl free ↦ elim (Bool-cases (at_end s.stack)) [
    | inl over ↦ ground (arith, found, free, over)
    | inr open_list ↦
        let cleared : Stream = record s { kind = none; kinderr = none } in
        let here : kind s ≡ follow (read_kind cleared) keep_tag = ground (arith, free, open_list) in
        let read : follow (read_kind cleared) keep_tag ≡ ok t s' = sym here ∙ found in
        let (tag, s1, e) = follow_inv (read_kind cleared) keep_tag t s' read in
        keep_tag-again tag s1 s' t e
  ]
  | inr (k, e) ↦
      let here : kind s ≡ stored k s = ground (arith, e) in
      stored-again k s s' t e (sym here ∙ found)
]
