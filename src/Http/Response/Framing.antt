-- ===== src/Http/Response/Framing.antt =====
-- nbhttp/response.go: checkChunked leaves one framing of the body.
use nbio.Base.{
  ◌≡◌, ◌⊎◌, inl, inr, refl, ap, ◌∙◌, true, false, ◌||◌, none, some, [], ◌∷◌, Bytes, equal,
  equal_iff, codes, if◌then◌else◌, arith, Bool-cases,
}
use nbio.Go.Header.{Header, values, set, delete, values-delete_self}
use nbio.Http.Parser.Framing.{transfer_encoding_header, content_length_header}
use nbio.Http.Response.{
  Response, check_chunked, should_chunk, any_chunked, all_values, decide_chunked,
}

values-set_self :
    (h : Header) (k v : Bytes) → equal k k ≡ true → values (set h k v) k ≡ some (v ∷ [])
unfolding values set
values-set_self [] k v e = rw (e, values) refl
values-set_self ((j, vs) ∷ h) k v e = ground (arith, values-set_self h k v e)

values-delete_other :
    (h : Header) (k j : Bytes) → equal k j ≡ false → values (delete h k) j ≡ values h j
unfolding values delete
values-delete_other [] k j e = refl
values-delete_other ((i, vs) ∷ h) k j e = elim (Bool-cases (equal i k)) [
  | inl hit ↦
      let other : equal i j ≡ false = ap (λ t. equal t j) ((equal_iff i k).0 hit) ∙ e in
      rw (hit, other) (values-delete_other h k j e)
  | inr miss ↦ rw miss (ap (λ t. if equal i j then some vs else t) (values-delete_other h k j e))
]

length_behind_encoding : equal content_length_header transfer_encoding_header ≡ false
unfolding equal
length_behind_encoding = refl

encoding_itself : equal transfer_encoding_header transfer_encoding_header ≡ true
unfolding equal
encoding_itself = refl

chunked_itself : any_chunked (codes "chunked" ∷ []) ≡ true
unfolding equal
chunked_itself = refl

-- In chunks, announced as such and with no Content-Length; or not in chunks, with the headers as they were, and then there
-- was no reason for chunks.
abbrev pub OneFraming : {C : Type 0} → Response C → Response C → Type 0
OneFraming res q =
    ((q.chunked ≡ true)
      × (values q.header content_length_header ≡ none)
      × (any_chunked (all_values (values q.header transfer_encoding_header)) ≡ true))
    ⊎ ((q.chunked ≡ false)
        × (q.header ≡ res.header)
        × (should_chunk res ≡ false)
        × (any_chunked (all_values (values res.header transfer_encoding_header)) ≡ false))

decided :
    {C : Type 0} (res : Response C)
    → res.chunk_checked ≡ false
    → check_chunked res ≡ decide_chunked (record res { chunk_checked = true })
unfolding check_chunked
decided res e = ap (λ t. if t then res else decide_chunked (record res { chunk_checked = true })) e

announced :
    {C : Type 0} (res : Response C)
    → any_chunked (all_values (values res.header transfer_encoding_header)) ≡ true
    → OneFraming res (decide_chunked (record res { chunk_checked = true }))
announced res e =
    let kept =
      values-delete_other res.header content_length_header transfer_encoding_header
        length_behind_encoding in
    rw e (
      inl (
        refl,
        values-delete_self res.header content_length_header,
        ap (λ t. any_chunked (all_values t)) kept ∙ e,
      ))

set_header :
    (h : Header)
    → any_chunked (
        all_values (
          values
            (delete (set h transfer_encoding_header (codes "chunked")) content_length_header)
            transfer_encoding_header))
      ≡ true
set_header h =
    let g = set h transfer_encoding_header (codes "chunked") in
    ap (λ t. any_chunked (all_values t))
      (values-delete_other g content_length_header transfer_encoding_header length_behind_encoding
        ∙ values-set_self h transfer_encoding_header (codes "chunked") encoding_itself)
    ∙ chunked_itself

-- The first checkChunked of a response ends in one of two ways: the body is in chunks, Transfer-Encoding says so and there
-- is no Content-Length; or it is not, the headers are as they were, no Transfer-Encoding is "chunked", and neither the version of HTTP nor
-- a trailer asks for chunks. The response was not in chunks before.
pub check_chunked-OneFraming :
    {C : Type 0} (res : Response C)
    → res.chunk_checked ≡ false
    → res.chunked ≡ false
    → OneFraming res (check_chunked res)
check_chunked-OneFraming res e f =
    let h = res.header in
    rw (decided res e)
      (elim (Bool-cases (any_chunked (all_values (values h transfer_encoding_header)))) [
        | inl told ↦ announced res told
        | inr untold ↦ elim (Bool-cases (should_chunk res)) [
          | inl chunks ↦
              let both : (res.chunked || should_chunk res) ≡ true = ground arith in
              rw (untold, both)
                (inl (
                  refl,
                  values-delete_self (set h transfer_encoding_header (codes "chunked"))
                      content_length_header,
                  set_header h,
                ))
          | inr plain ↦
              let neither : (res.chunked || should_chunk res) ≡ false = ground arith in
              rw (untold, neither) (inr (f, refl, plain, refl))
        ]
      ])
