-- ===== src/Websocket/Dial/Receiving.antt =====
-- The response of nbhttp/websocket/upgrader.go, under the checks of
-- nbhttp/websocket/dialer.go. The client has the fields in its http.Header, as ClientProcessor adds
-- them.
use mathlib.Core.List.{append_assoc, append-nil}
use nbio.Base.{
  Bool, true, false, List, [], ◌∷◌, ◌++◌, none, some, ◌≡◌, refl, ◌∙◌, Bytes, Bool-cases, inl, inr,
  if◌then◌else◌, ap, equal, equal_iff, equal_refl, codes, arith,
}
use nbio.Go.Header.{Header, values, get, first, add, canonical_header_key}
use nbio.Websocket.Tokens.{
  is_token_octet, equal_ascii_fold, contains_any, or_nil, header_values, header_contains,
  all_extensions, parse_extensions,
}
use nbio.Websocket.Upgrade.{
  Outside, connection, upgrade_field, accept_field, protocol_field, extensions_field, accept_key,
}
use nbio.Websocket.Dial.{offer, connected, plain, compressed, negotiated, check_response}
use nbio.Websocket.Dial.Wire.{skip_spaces, trimmed}
use nbio.Websocket.Dial.Answering.{Fields, value_fields, extra_fields, answer_fields}

-- ClientProcessor.OnHeader of one field after the other.
unfoldable pub receive : Header → Fields → Header
receive h [] = h
receive h ((k, v) ∷ fs) = receive (add h (canonical_header_key k) v) fs

picked : Bytes → Fields → List Bytes
picked j [] = []
picked j ((k, v) ∷ fs) = if equal (canonical_header_key k) j then v ∷ picked j fs else picked j fs

header_values-add :
    (h : Header) (k v j : Bytes)
    → header_values (add h k v) j
      ≡ (if equal k j then header_values h j ++ v ∷ [] else header_values h j)
unfolding header_values values add
header_values-add [] k v j = ground arith
header_values-add ((i, ws) ∷ h) k v j =
    ground (arith, equal_iff k j, equal_iff i k, equal_iff i j, header_values-add h k v j)

header_values-receive :
    (h : Header) (fs : Fields) (j : Bytes)
    → header_values (receive h fs) j ≡ header_values h j ++ picked j fs
unfolding receive picked
header_values-receive h [] j = rw append-nil
header_values-receive h ((k, v) ∷ fs) j =
    header_values-receive (add h (canonical_header_key k) v) fs j
    ∙ rw (header_values-add h (canonical_header_key k) v j)
        (ground (arith, append_assoc (header_values h j) (v ∷ []) (picked j fs)))

picked-append : (j : Bytes) (fs gs : Fields) → picked j (fs ++ gs) ≡ picked j fs ++ picked j gs
unfolding picked
picked-append j [] gs = refl
picked-append j ((k, v) ∷ fs) gs = ground (arith, picked-append j fs gs)

-- The values without the spaces before them.
abbrev pub skipped : List Bytes → List Bytes
skipped [] = []
skipped (v ∷ vs) = skip_spaces v ∷ skipped vs

picked-trimmed : (j : Bytes) (fs : Fields) → picked j (trimmed fs) ≡ skipped (picked j fs)
unfolding picked trimmed
picked-trimmed j [] = refl
picked-trimmed j ((k, v) ∷ fs) = elim (Bool-cases (equal (canonical_header_key k) j)) [
  | inl e ↦ rw e (ap (λ t. skip_spaces v ∷ t) (picked-trimmed j fs))
  | inr e ↦ rw e (picked-trimmed j fs)
]

first-skipped : (vs : List Bytes) → first (some (skipped vs)) ≡ skip_spaces (first (some vs))
unfolding skip_spaces
first-skipped [] = refl
first-skipped (v ∷ vs) = refl

-- The keys of a map that is handled as an http.Header are canonical.
abbrev pub IsCanonical : Header → Type 0
IsCanonical [] = Unit {0}
IsCanonical ((k, vs) ∷ h) = (canonical_header_key k ≡ k) × IsCanonical h

picked-value_fields :
    (j k : Bytes) (vs : List Bytes)
    → canonical_header_key k ≡ k
    → equal k j ≡ false
    → picked j (value_fields k vs) ≡ []
unfolding picked value_fields
picked-value_fields j k [] e ne = refl
picked-value_fields j k (v ∷ vs) e ne = rw (e, ne) (picked-value_fields j k vs e ne)

picked_protocol : (h : Header) → IsCanonical h → picked protocol_field (extra_fields h) ≡ []
unfolding extra_fields picked
picked_protocol [] c = refl
picked_protocol ((k, vs) ∷ h) c = elim (Bool-cases (equal k protocol_field)) [
  | inl e ↦ rw e (picked_protocol h c.1)
  | inr e ↦
      rw e
        (rw (picked-append, picked-value_fields protocol_field k vs c.0 e) (picked_protocol h c.1))
]

picked_extensions :
    (h : Header)
    → IsCanonical h
    → values h extensions_field ≡ none
    → picked extensions_field (extra_fields h) ≡ []
unfolding extra_fields picked values
picked_extensions [] c unset = refl
picked_extensions ((k, vs) ∷ h) c unset = elim (Bool-cases (equal k extensions_field)) [
  | inl e ↦ cc (rw e at unset)
  | inr e ↦ elim (Bool-cases (equal k protocol_field)) [
    | inl p ↦ rw p (picked_extensions h c.1 (rw e at unset))
    | inr p ↦ rw p (
        rw (picked-append, picked-value_fields extensions_field k vs c.0 e)
          (picked_extensions h c.1 (rw e at unset)))
  ]
]

get-header_values : (h : Header) (k : Bytes) → get h k ≡ first (some (header_values h k))
unfolding get header_values
get-header_values h k = elim (values h k) as (λ o. first o ≡ first (some (or_nil o))) [
  | none ↦ refl
  | some vs ↦ refl
]

picked_answer_protocol :
    (o : Outside) (h : Header) (key subprotocol : Bytes) (compress : Bool)
    → IsCanonical h
    → first (some (picked protocol_field (answer_fields o h key subprotocol compress)))
      ≡ subprotocol
unfolding answer_fields picked canonical_header_key equal
picked_answer_protocol o h key [] true canonical = rw (picked_protocol h canonical)
picked_answer_protocol o h key [] false canonical = rw (picked_protocol h canonical)
picked_answer_protocol o h key (c ∷ cs) compress canonical = refl

picked_answer_extensions :
    (o : Outside) (h : Header) (key subprotocol : Bytes) (compress : Bool)
    → IsCanonical h
    → values h extensions_field ≡ none
    → picked extensions_field (answer_fields o h key subprotocol compress)
      ≡ (if compress then offer ∷ [] else [])
unfolding answer_fields picked canonical_header_key equal
picked_answer_extensions o h key [] true canonical unset = rw (picked_extensions h canonical unset)
picked_answer_extensions o h key [] false canonical unset = rw (picked_extensions h canonical unset)
picked_answer_extensions o h key (c ∷ cs) true canonical unset =
    rw (picked_extensions h canonical unset)
picked_answer_extensions o h key (c ∷ cs) false canonical unset =
    rw (picked_extensions h canonical unset)

module _ (o : Outside) (h : Header) (key subprotocol : Bytes) (compress : Bool) where
  unfoldable pub answered : Header
  unfolding receive answer_fields trimmed
  answered = receive [] (trimmed (answer_fields o h key subprotocol compress))

  answered_values :
      (j : Bytes)
      → header_values answered j ≡ skipped (picked j (answer_fields o h key subprotocol compress))
  unfolding answered header_values values
  answered_values j =
      header_values-receive [] (trimmed (answer_fields o h key subprotocol compress)) j
      ∙ picked-trimmed j (answer_fields o h key subprotocol compress)

  answers_upgrade : header_contains answered upgrade_field (codes "websocket") ≡ true
  unfolding header_contains contains_any answer_fields picked canonical_header_key equal
      equal_ascii_fold is_token_octet skip_spaces
  answers_upgrade = rw (answered_values upgrade_field) refl

  answers_connection : header_contains answered connection (codes "upgrade") ≡ true
  unfolding header_contains contains_any answer_fields picked canonical_header_key equal
      equal_ascii_fold is_token_octet skip_spaces
  answers_connection = rw (answered_values connection) refl

  answers_key :
      skip_spaces (accept_key o key) ≡ accept_key o key
      → get answered accept_field ≡ accept_key o key
  unfolding answer_fields picked canonical_header_key equal
  answers_key plain_key = rw (get-header_values, answered_values accept_field) plain_key

  answers_protocol :
      IsCanonical h
      → skip_spaces subprotocol ≡ subprotocol
      → get answered protocol_field ≡ subprotocol
  answers_protocol canonical plain_protocol =
      let fields = answer_fields o h key subprotocol compress in
      rw (get-header_values, answered_values protocol_field)
        (first-skipped (picked protocol_field fields)
          ∙ ap skip_spaces (picked_answer_protocol o h key subprotocol compress canonical)
          ∙ plain_protocol)

  answers_extensions :
      IsCanonical h
      → values h extensions_field ≡ none
      → header_values answered extensions_field ≡ (if compress then offer ∷ [] else [])
  unfolding skip_spaces
  answers_extensions canonical unset =
      answered_values extensions_field
      ∙ ap skipped (picked_answer_extensions o h key subprotocol compress canonical unset)
      ∙ elim (Bool-cases compress) [ inl e ↦ rw e refl | inr e ↦ rw e refl ]

  answers_deflate :
      IsCanonical h
      → values h extensions_field ≡ none
      → negotiated (parse_extensions answered) ≡ (if compress then compressed else plain)
  unfolding parse_extensions all_extensions negotiated is_token_octet equal
  answers_deflate canonical unset =
      rw (answers_extensions canonical unset)
        (elim (Bool-cases compress) [ inl e ↦ rw e refl | inr e ↦ rw e refl ])

  -- The client takes every response that commResponse writes, with the subprotocol and the choice of
  -- compression that it was written with. The header that the server adds has canonical keys and does
  -- not set the field of the extensions; the digest and the subprotocol do not begin with a space.
  pub check_response-answer_fields :
      IsCanonical h
      → values h extensions_field ≡ none
      → skip_spaces (accept_key o key) ≡ accept_key o key
      → skip_spaces subprotocol ≡ subprotocol
      → check_response o key 101 answered ≡ connected subprotocol compress
  unfolding check_response
  check_response-answer_fields canonical unset plain_key plain_protocol =
      rw
        (
          answers_upgrade,
          answers_connection,
          answers_key plain_key,
          answers_protocol canonical plain_protocol,
          answers_deflate canonical unset,
          equal_refl,
        )
        (elim (Bool-cases compress) [ inl e ↦ rw e refl | inr e ↦ rw e refl ])
