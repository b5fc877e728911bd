-- ===== src/Rlp/Writer/Steps.antt =====
-- What each writer adds to the buffer: string data and headers that stand for some bytes.
use go_fiscobcos.Base.{
  ℕ, ◌+◌, ◌-◌, ◌≡◌, ◌∙◌, refl, sym, ap, List, [], ◌∷◌, ◌++◌, length, arith, IsU64, append_assoc,
  append-nil, length-append,
}
use go_fiscobcos.Rlp.Head.{put_head}
use go_fiscobcos.Rlp.Buffer
use go_fiscobcos.Rlp.Buffer.{
  ListHead, EncBuf, write, encode_string, encode_string_header, list_end, encode_head, size,
}
use go_fiscobcos.Rlp.Buffer.Render.{
  render, IsWithin, heads_size, heads_size-append, render-append, length-render,
}
use go_fiscobcos.Rlp.Buffer.Lists.{list_end_lem, list-str, list-lhsize}
use go_fiscobcos.Rlp.Writer.Encoding.{list_encoding}

-- From `w` to `w'` the buffer has grown by what stands for the bytes `out`.
pub record Wrote (w w' : EncBuf) (out : List ℕ) : Type 0 where
  pub added : List ℕ
  pub heads : List ListHead
  pub str_grows : w'.str ≡ w.str ++ added
  pub heads_grow : w'.lheads ≡ w.lheads ++ heads
  pub size_grows : w'.lhsize ≡ w.lhsize + heads_size heads
  pub within : IsWithin (length w.str) added heads
  pub rendered : render (length w.str) added heads ≡ out

pub Wrote-nothing : (w : EncBuf) → Wrote w w []
Wrote-nothing w = record {
  added = [];
  heads = [];
  str_grows = sym (append-nil w.str);
  heads_grow = sym (append-nil w.lheads);
  size_grows = omega arith;
  within = tt;
  rendered = refl;
}

pub Wrote-write : (b : List ℕ) (w : EncBuf) → Wrote w (write b w) b
Wrote-write b w = record {
  added = b;
  heads = [];
  str_grows = refl;
  heads_grow = sym (append-nil w.lheads);
  size_grows = omega arith;
  within = tt;
  rendered = refl;
}

pub Wrote-trans :
    {w w1 w2 : EncBuf} {a b : List ℕ} → Wrote w w1 a → Wrote w1 w2 b → Wrote w w2 (a ++ b)
Wrote-trans {w} {w1} {w2} {a} {b} p q =
    let here : length w1.str ≡ length w.str + length p.added =
      ap length p.str_grows ∙ length-append w.str p.added in
    let both =
      render-append (length w.str) p.added q.added p.heads q.heads p.within
        (rw (← here) q.within) in
    record {
      added = p.added ++ q.added;
      heads = p.heads ++ q.heads;
      str_grows =
          q.str_grows
          ∙ ap (λ (l : List ℕ). l ++ q.added) p.str_grows
          ∙ append_assoc w.str p.added q.added;
      heads_grow =
          q.heads_grow
          ∙ ap (λ (l : List ListHead). l ++ q.heads) p.heads_grow
          ∙ append_assoc w.lheads p.heads q.heads;
      size_grows = omega (arith, p.size_grows, q.size_grows, heads_size-append p.heads q.heads);
      within = both.1;
      rendered = both.0 ∙ rw (← here, p.rendered, q.rendered);
    }

-- A list: what the elements write, behind the header that list reserved and listEnd completes.
pub Wrote-list :
    (w w' : EncBuf) (out : List ℕ)
    → IsU64 (length out)
    → Wrote (Buffer.list w).1 w' out
    → Wrote w (list_end (Buffer.list w).0 w') (list_encoding out)
Wrote-list w w' out u p =
    let h : ListHead = record { offset = length w.str; size = length out } in
    let start : length (Buffer.list w).1.str ≡ length w.str = ap length (list-str w) in
    let body : length out ≡ length p.added + heads_size p.heads =
      ap length (sym p.rendered) ∙ length-render _ p.added p.heads p.within in
    let string_size : length w'.str ≡ length w.str + length p.added =
      ap length p.str_grows ∙ length-append _ p.added ∙ ap (λ (n : ℕ). n + length p.added) start in
    let total : size w' ≡ size w + length out =
      omega (arith, p.size_grows, list-lhsize w, string_size, body) in
    let ends = list_end_lem w w' p.heads (length out) p.heads_grow total in
    let here : length w.str - length w.str ≡ 0 = omega arith in
    rw ends (record {
      added = p.added;
      heads = h ∷ p.heads;
      str_grows = p.str_grows ∙ ap (λ (l : List ℕ). l ++ p.added) (list-str w);
      heads_grow = refl;
      size_grows = omega (arith, p.size_grows, list-lhsize w);
      within = (omega arith, omega arith, u, rw here (rw start at p.within));
      rendered =
          rw here
            (ap (λ (l : List ℕ). put_head 0xC0 0xF7 (length out) ++ l) (rw start at p.rendered));
    })
