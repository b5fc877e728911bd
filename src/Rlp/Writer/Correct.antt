-- ===== src/Rlp/Writer/Correct.antt =====
-- encode and toBytes together produce the encoding of the value.
use go_fiscobcos.Base.{
  ℕ, ◌≡◌, ◌∙◌, refl, ap, Bool, true, false, ◌||◌, List, [], ◌∷◌, ◌++◌, length, arith, IsU64,
  length-append, pos, negsuc, ok, err, Outcome, ◌⊎◌, inl, inr,
}
use go_fiscobcos.Rlp.Types.{Kind, Error, negative_int}
use go_fiscobcos.Rlp.Head.{put_head}
use go_fiscobcos.Rlp.Head.Size.{put_head_short}
use go_fiscobcos.Rlp.Buffer
use go_fiscobcos.Rlp.Buffer.{EncBuf, empty, write, list_end, to_bytes}
use go_fiscobcos.Rlp.Buffer.Render.{render, IsWithin}
use go_fiscobcos.Rlp.Buffer.Output.{to_bytes-render}
use go_fiscobcos.Rlp.Writer.{
  Value, Values, empty_list, write_nil_ptr, write_value, write_values, encode_to_bytes,
  write_big_int,
}
use go_fiscobcos.Rlp.Writer.Encoding.{
  encoding, payload, has_negative, any_negative, IsRanged, AllRanged, string_encoding,
  list_encoding,
}
use go_fiscobcos.Rlp.Writer.Steps.{Wrote, Wrote-nothing, Wrote-write, Wrote-trans, Wrote-list}
use go_fiscobcos.Rlp.Writer.Scalars.{
  Wrote-write_uint, Wrote-write_bool, Wrote-write_big_int, Wrote-encode_string, Wrote-empty_string,
  write_string-encode_string,
}

Wrote-empty_list : (w : EncBuf) → Wrote w (empty_list w) (list_encoding [])
unfolding empty_list
Wrote-empty_list w = Wrote-list w (Buffer.list w).1 [] (omega arith) (Wrote-nothing _)

-- The single byte that stands for the empty list.
Wrote-empty_list_byte : (w : EncBuf) → Wrote w (write (0xC0 ∷ []) w) (list_encoding [])
Wrote-empty_list_byte w =
    rw (put_head_short 0xC0 0xF7 0 (omega arith) (omega arith)) (Wrote-write (0xC0 ∷ []) w)

-- The buffer that a writer ends with.
abbrev Writes : EncBuf → Outcome Error EncBuf → List ℕ → Type 0
Writes w r out = (w' : EncBuf) × (r ≡ ok w') × Wrote w w' out

length-payload_left : (a b : List ℕ) → IsU64 (length (a ++ b)) → IsU64 (length a) × IsU64 (length b)
length-payload_left a b u = omega (arith, length-append a b)

string_encoding-length : (s : List ℕ) → IsU64 (length (string_encoding s)) → IsU64 (length s)
string_encoding-length [] u = omega arith
string_encoding-length (x ∷ []) u = omega arith
string_encoding-length (x ∷ y ∷ s) u =
    omega (arith, length-append (put_head 0x80 0xB7 (length (x ∷ y ∷ s))) (x ∷ y ∷ s))

or-eq-false : (a b : Bool) → (a || b) ≡ false → (a ≡ false) × (b ≡ false)
or-eq-false false b h = (refl, h)
or-eq-false true b h = cc

mutual
  unfolding write_value encoding has_negative IsRanged write_nil_ptr

  writes :
      (v : Value) (w : EncBuf)
      → has_negative v ≡ false
      → IsRanged v
      → IsU64 (length (encoding v))
      → Writes w (write_value v w) (encoding v)
  writes (Value.raw b) w h r u = (_, refl, Wrote-write b w)
  writes (Value.uint i) w h r u = (_, refl, Wrote-write_uint i w r)
  writes (Value.bool b) w h r u = (_, refl, Wrote-write_bool b w)
  writes (Value.big (pos n)) w h r u = Wrote-write_big_int n w (string_encoding-length _ u)
  writes (Value.big (negsuc n)) w h r u = cc
  writes Value.nil_big w h r u = (_, refl, Wrote-empty_string w)
  writes (Value.text s) w h r u =
      let fits = string_encoding-length s u in
      (_, refl, rw (write_string-encode_string s w fits) (Wrote-encode_string s w fits))
  writes (Value.bytes b) w h r u = (_, refl, Wrote-encode_string b w (string_encoding-length b u))
  writes (Value.seq vs) w h r u =
      let fits =
        (length-payload_left (put_head 0xC0 0xF7 (length (payload vs))) (payload vs) u).1 in
      let (w', e, p) = Writes-all vs (Buffer.list w).1 h r fits in
      (_, rw e, Wrote-list w w' (payload vs) fits p)
  writes (Value.tail_seq vs) w h r u = Writes-all vs w h r u
  writes (Value.nil_ptr Kind.string) w h r u = (_, refl, Wrote-empty_string w)
  writes (Value.nil_ptr Kind.byte) w h r u = (_, refl, Wrote-empty_list w)
  writes (Value.nil_ptr Kind.list) w h r u = (_, refl, Wrote-empty_list w)
  writes Value.nil_interface w h r u = (_, refl, Wrote-empty_list_byte w)

  Writes-all :
      (vs : Values) (w : EncBuf)
      → any_negative vs ≡ false
      → AllRanged vs
      → IsU64 (length (payload vs))
      → Writes w (write_values vs w) (payload vs)
  Writes-all Values.nil w h r u = (w, refl, Wrote-nothing w)
  Writes-all (Values.cons v vs) w h r u =
      let fits = length-payload_left (encoding v) (payload vs) u in
      let neither = or-eq-false (has_negative v) (any_negative vs) h in
      let (w1, e1, p1) = writes v w neither.0 r.0 fits.0 in
      let (w2, e2, p2) = Writes-all vs w1 neither.1 r.1 fits.1 in (w2, rw e1 e2, Wrote-trans p1 p2)

-- For a value without a negative big integer, whose unsigned numbers are below 2 ^ 64 and whose
-- encoding is shorter than 2 ^ 64 bytes, EncodeToBytes succeeds and returns the encoding that
-- the rules define by recursion on the value: the two passes over string data and list headers
-- put each header, with the right size, in front of its list.
pub encode_to_bytes-encoding :
    (v : Value)
    → has_negative v ≡ false
    → IsRanged v
    → IsU64 (length (encoding v))
    → encode_to_bytes v ≡ ok (encoding v)
unfolding encode_to_bytes
encode_to_bytes-encoding v h r u =
    let (w, e, p) = writes v empty h r u in
    let within : IsWithin 0 w.str w.lheads = rw (p.str_grows, p.heads_grow) p.within in
    let shown : render 0 w.str w.lheads ≡ encoding v = rw (p.str_grows, p.heads_grow) p.rendered in
    rw e (to_bytes-render w within (rw p.heads_grow (p.size_grows ∙ omega arith)) ∙ ap ok shown)

-- A writer ends with an error exactly where the value has a negative big integer.
abbrev Ends : Bool → Outcome Error EncBuf → Type 0
Ends b r = ((b ≡ true) × (r ≡ err negative_int)) ⊎ ((b ≡ false) × ((w : EncBuf) × (r ≡ ok w)))

mutual
  unfolding write_value write_big_int has_negative

  ends : (v : Value) (w : EncBuf) → Ends (has_negative v) (write_value v w)
  ends (Value.raw b) w = inr (refl, (_, refl))
  ends (Value.uint i) w = inr (refl, (_, refl))
  ends (Value.bool b) w = inr (refl, (_, refl))
  ends (Value.big (pos n)) w = inr (refl, (_, refl))
  ends (Value.big (negsuc n)) w = inl (refl, refl)
  ends Value.nil_big w = inr (refl, (_, refl))
  ends (Value.text s) w = inr (refl, (_, refl))
  ends (Value.bytes b) w = inr (refl, (_, refl))
  ends (Value.seq vs) w = elim (Ends-all vs (Buffer.list w).1) [
    | inl (h, e) ↦ inl (h, rw e)
    | inr (h, (w', e)) ↦ inr (h, (list_end (Buffer.list w).0 w', rw e))
  ]
  ends (Value.tail_seq vs) w = Ends-all vs w
  ends (Value.nil_ptr k) w = inr (refl, (_, refl))
  ends Value.nil_interface w = inr (refl, (_, refl))

  Ends-all : (vs : Values) (w : EncBuf) → Ends (any_negative vs) (write_values vs w)
  Ends-all Values.nil w = inr (refl, (w, refl))
  Ends-all (Values.cons v vs) w = elim (ends v w) [
    | inl (h, e) ↦ inl (rw h, rw e)
    | inr (h, (w1, e)) ↦ elim (Ends-all vs w1) [
      | inl (h', e') ↦ inl (rw (h, h'), rw (e, e'))
      | inr (h', (w2, e')) ↦ inr (rw (h, h'), (w2, rw (e, e')))
    ]
  ]

-- A negative big integer anywhere in the value makes EncodeToBytes return the error for it,
-- whatever is written before.
pub encode_to_bytes-negative :
    (v : Value) → has_negative v ≡ true → encode_to_bytes v ≡ err negative_int
unfolding encode_to_bytes
encode_to_bytes-negative v h = elim (ends v empty) [ inl (_, e) ↦ rw e | inr (h', _) ↦ cc (h, h') ]
