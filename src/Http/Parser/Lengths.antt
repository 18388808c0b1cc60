-- ===== src/Http/Parser/Lengths.antt =====
-- nbhttp/parser.go: how the end of the headers decides where the body ends.
use nbio.Base.{
  ◌^◌, ◌≤◌, ◌≡◌, refl, true, false, Option, none, some, List, [], ◌∷◌, Bytes, arith, ℤ, pos, negsuc,
  minus_one, ◌⊎◌, inl, inr, is_nil, Bool-cases, Option-cases, ltb,
}
use nbio.Go.Number.{parse_int, parse_int-lt}
use nbio.Go.Header.{values, get, delete, get-delete_self}
use nbio.Http.Parser.State.{
  Parser, Processor, Outcome, next, skip, exit, fail, with_world, next_state,
}
use nbio.Http.Parser.Framing.{
  Result, ok, err, transfer_encoding_header, content_length_header, parse_transfer_encoding,
  parse_content_length, parse_trailer, trim_end, is_chunked, set_chunked, set_length, max_int,
}
use nbio.Http.Parser.Fields.{with_trailer, with_length, with_encoding, end_headers}

-- A length that is known is at most 2 ^ 62.
abbrev pub UpTo : ℤ → Type 0
UpTo (pos n) = n ≤ 2 ^ 62
UpTo (negsuc n) = Unit {0}

-- The framing of the parser `q` for a message whose headers were `p`'s: in chunks and of no length,
-- or not in chunks, and there was no Transfer-Encoding.
pub record Framed {S : Type 0} (p q : Parser S) : Type 0 where
  pub one_framing :
      ((q.chunked ≡ true) × (q.content_length ≡ minus_one))
      ⊎ ((q.chunked ≡ false) × (values p.header transfer_encoding_header ≡ none))
  pub in_range : UpTo q.content_length

abbrev pub FramedOutcome : {S : Type 0} → Parser S → Outcome S → Type 0
FramedOutcome p (next q m) = Framed p q
FramedOutcome p (skip q n) = ⊥
FramedOutcome p exit = ⊥
FramedOutcome p (fail q e) = Unit {0}

module _ {S : Type 0} where
  -- After the Transfer-Encoding: chunked, and the Content-Length is gone; or there was none.
  abbrev Encoded : Parser S → Result (Parser S) → Type 0
  Encoded p (ok q) =
      ((q.chunked ≡ true) × (get q.header content_length_header ≡ []))
      ⊎ ((q.chunked ≡ false) × (values p.header transfer_encoding_header ≡ none))
  Encoded p (err e) = Unit {0}

  set_chunked-Encoded : (p q : Parser S) (vs : List Bytes) → Encoded p (set_chunked q vs)
  set_chunked-Encoded p q [] = tt
  set_chunked-Encoded p q (v ∷ []) = elim (Bool-cases (is_chunked v)) [
    | inl e ↦ rw e (inl (refl, get-delete_self q.header content_length_header))
    | inr e ↦ rw e tt
  ]
  set_chunked-Encoded p q (v ∷ w ∷ vs) = tt

  encoding-Encoded : (p : Parser S) → p.chunked ≡ false → Encoded p (parse_transfer_encoding p).1
  unfolding parse_transfer_encoding
  encoding-Encoded p c = elim (Option-cases (values p.header transfer_encoding_header)) [
    | inl e ↦ rw (e, parse_transfer_encoding) (inr (c, e))
    | inr (vs, e) ↦
        rw (e, parse_transfer_encoding)
          (set_chunked-Encoded p (record p { header = delete p.header transfer_encoding_header })
            vs)
  ]

  abbrev FramedResult : Parser S → Result (Parser S) → Type 0
  FramedResult p (ok q) = Framed p q
  FramedResult p (err e) = Unit {0}

  set_length-Framed :
      (p q : Parser S) (s : Bytes)
      → q.chunked ≡ false
      → values p.header transfer_encoding_header ≡ none
      → (r : Option ℤ) → parse_int s 10 63 ≡ r
      → FramedResult p (set_length q r)
  set_length-Framed p q s c v none e = tt
  set_length-Framed p q s c v (some (negsuc n)) e = tt
  set_length-Framed p q s c v (some (pos n)) e = elim (Bool-cases (ltb max_int n)) [
    | inl big ↦ rw big tt
    | inr small ↦ rw small (record {
      one_framing = inr (c, v);
      in_range = ground (arith, parse_int-lt s 10 63 {n = n} e);
    })
  ]

  length_open :
      (q : Parser S)
      → is_nil (get q.header content_length_header) ≡ false
      → q.chunked ≡ false
      → parse_content_length q
        ≡ set_length q (parse_int (trim_end (get q.header content_length_header)) 10 63)
  unfolding parse_content_length
  length_open q z c = ground arith

  length-Framed : (p q : Parser S) → Encoded p (ok q) → FramedResult p (parse_content_length q)
  unfolding parse_content_length
  length-Framed p q (inl e) =
      rw (e.1, parse_content_length) (record { one_framing = inl (e.0, refl); in_range = tt })
  length-Framed p q (inr e) = elim (Bool-cases (is_nil (get q.header content_length_header))) [
    | inl z ↦ rw (z, parse_content_length) (record { one_framing = inr (e.0, e.1); in_range = tt })
    | inr z ↦
        rw (length_open q z e.0)
          (set_length-Framed p q (trim_end (get q.header content_length_header)) e.0 e.1 _ refl)
  ]

  -- The trailer's names have no part in it.
  trailer-Framed : (p q : Parser S) → Framed p q → FramedResult p (parse_trailer q).1
  unfolding parse_trailer
  trailer-Framed p q f = ground arith

module _ {S : Type 0} (h : Processor S) where
  with_trailer-Framed :
      (p : Parser S) (r : Parser S × Result (Parser S))
      → FramedResult p r.1
      → FramedOutcome p (with_trailer h r)
  unfolding next_state
  with_trailer-Framed p (q, ok q') f = ground arith
  with_trailer-Framed p (q, err e) f = tt

  with_length-Framed :
      (p q : Parser S) (r : Result (Parser S))
      → FramedResult p r
      → FramedOutcome p (with_length h q r)
  with_length-Framed p q (ok q') f =
      let w = with_world q' (h.on_content_length q'.content_length q'.world) in
      with_trailer-Framed p (parse_trailer w)
        (trailer-Framed p w (record { one_framing = f.one_framing; in_range = f.in_range }))
  with_length-Framed p q (err e) f = tt

  with_encoding-Framed :
      (p : Parser S) (r : Parser S × Result (Parser S))
      → Encoded p r.1
      → FramedOutcome p (with_encoding h r)
  with_encoding-Framed p (q, ok q') e =
      with_length-Framed p q' (parse_content_length q') (length-Framed p q' e)
  with_encoding-Framed p (q, err x) e = tt

  -- At the end of the headers of a message the parser fails, or goes on with one framing: in chunks,
  -- with no length, whatever Content-Length came along; or not in chunks, if there was no
  -- Transfer-Encoding. A length is at most 2 ^ 62.
  pub end_headers-Framed : (p : Parser S) → p.chunked ≡ false → FramedOutcome p (end_headers h p)
  unfolding end_headers
  end_headers-Framed p c = with_encoding-Framed p (parse_transfer_encoding p) (encoding-Encoded p c)
