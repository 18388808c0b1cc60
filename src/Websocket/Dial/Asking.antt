-- ===== src/Websocket/Dial/Asking.antt =====
-- The request of nbhttp/websocket/dialer.go under commCheck of nbhttp/websocket/upgrader.go.
use nbio.Base.{
  true, false, ◌&&◌, List, [], ◌∷◌, Option, none, some, ◌≡◌, refl, sym, ap, ◌∙◌, Bytes, is_nil,
  Bool-cases, Option-cases, inl, inr, if◌then◌else◌, equal, equal_iff, codes, arith,
}
use nbio.Go.Header.{Header, values, get}
use nbio.Websocket.Tokens.{
  is_token_octet, equal_ascii_fold, contains_any, header_values, header_contains, all_extensions,
  parse_extensions,
}
use nbio.Websocket.Upgrade.{
  Outside, Request, Upgrader, accepted, connection, upgrade_field, version_field, key_field,
  protocol_field, extensions_field, allows_origin, offers_deflate, select_subprotocol, comm_check,
}
use nbio.Websocket.Dial.{
  assign, Dialer, is_reserved, set_host, merge, offer, fields, with_offer, dial_request,
}

pub values-assign :
    (h : Header) (k j : Bytes) (vs : List Bytes)
    → values (assign h k vs) j ≡ (if equal k j then some vs else values h j)
unfolding values assign
values-assign [] k j vs = refl
values-assign ((i, ws) ∷ h) k j vs =
    ground (arith, equal_iff k j, equal_iff i k, equal_iff i j, values-assign h k j vs)

set_host_keeps :
    (vs : List Bytes) (r : Request)
    → ((set_host vs r).header ≡ r.header) × ((set_host vs r).method ≡ r.method)
set_host_keeps [] r = (refl, refl)
set_host_keeps (v ∷ vs) r = (refl, refl)

other_name :
    (d : Dialer) (k j : Bytes)
    → is_reserved d k ≡ false
    → is_reserved d j ≡ true
    → equal k j ≡ false
other_name d k j free reserved = elim (Bool-cases (equal k j)) [
  | inl e ↦ cc (ap (is_reserved d) ((equal_iff k j).0 e))
  | inr e ↦ e
]

Keeps : Bytes → Request → Request → Type 0
Keeps j r s = (values s.header j ≡ values r.header j) × (s.method ≡ r.method)

-- The loop over the request header leaves the reserved fields and the method as they are.
merge-Keeps :
    (d : Dialer) (h : Header) (r s : Request) (j : Bytes)
    → merge d h r ≡ some s
    → is_reserved d j ≡ true
    → Keeps j r s
unfolding merge Keeps
merge-Keeps d [] r s j e reserved =
    let same : r ≡ s = cc in
    (ap (λ (t : Request). values t.header j) (sym same), ap (λ (t : Request). t.method) (sym same))
merge-Keeps d ((k, vs) ∷ h) r s j e reserved = elim (Bool-cases (equal k (codes "Host"))) [
  | inl host ↦
      let kept = merge-Keeps d h (set_host vs r) s j (rw host at e) reserved in
      let alike = set_host_keeps vs r in (kept.0 ∙ ap (λ t. values t j) alike.0, kept.1 ∙ alike.1)
  | inr field ↦ elim (Bool-cases (is_reserved d k)) [
    | inl bad ↦ cc (rw (field, bad) at e)
    | inr free ↦
        let r' : Request = record r { header = assign r.header k vs } in
        let kept = merge-Keeps d h r' s j (rw (field, free) at e) reserved in
        (kept.0 ∙ (values-assign r.header k j vs ∙ rw (other_name d k j free reserved)), kept.1)
  ]
]

-- The fields of the handshake, the later over the earlier.
abbrev handshake_field : Dialer → (key : Bytes) → Header → Bytes → Option (List Bytes)
handshake_field d key cookies j =
    if equal version_field j
    then some (codes "13" ∷ [])
    else if equal key_field j
    then some (key ∷ [])
    else if equal connection j
    then some (codes "Upgrade" ∷ [])
    else if equal upgrade_field j
    then some (codes "websocket" ∷ [])
    else values cookies j

values-fields :
    (d : Dialer) (key : Bytes) (cookies : Header) (j : Bytes)
    → equal protocol_field j ≡ false
    → values (fields d key cookies) j ≡ handshake_field d key cookies j
unfolding fields
values-fields d key cookies j other = elim (Bool-cases (is_nil d.subprotocols)) [
  | inl e ↦ rw e (simp values-assign)
  | inr e ↦ rw e (simp (values-assign, other))
]

with_offer-values :
    (d : Dialer) (s r : Request) (j : Bytes)
    → with_offer d (some s) ≡ some r
    → (values r.header j ≡ (
        if d.enable_compression && equal extensions_field j
        then some (offer ∷ [])
        else values s.header j))
      × (r.method ≡ s.method)
unfolding with_offer
with_offer-values d s r j e = elim (Bool-cases d.enable_compression) [
  | inl on ↦
      let offered : Request = record s { header = assign s.header extensions_field (offer ∷ []) } in
      let same : r ≡ offered = cc (rw on at e) in
      (
        rw on (
            ap (λ (t : Request). values t.header j) same
            ∙ values-assign s.header extensions_field j _),
        ap (λ (t : Request). t.method) same,
      )
  | inr off ↦
      let same : r ≡ s = cc (rw off at e) in
      (rw off (ap (λ (t : Request). values t.header j) same), ap (λ (t : Request). t.method) same)
]

-- What the request holds under a name that the request header may not hold.
pub values-dial_request :
    (d : Dialer) (key host : Bytes) (cookies h : Header) (r : Request) (j : Bytes)
    → dial_request d key host cookies h ≡ some r
    → is_reserved d j ≡ true
    → (values r.header j ≡ (
        if d.enable_compression && equal extensions_field j
        then some (offer ∷ [])
        else values (fields d key cookies) j))
      × (r.method ≡ codes "GET")
unfolding dial_request Keeps
values-dial_request d key host cookies h r j e reserved = elim (Option-cases (merge d h asked)) [
  | inl failed ↦ cc (rw failed at e)
  | inr (s, made) ↦
      let kept = merge-Keeps d h asked s j made reserved in
      let offered = with_offer-values d s r j (rw made at e) in
      (rw kept.0 at offered.0, offered.1 ∙ kept.1)
]
  where
    asked : Request
    asked = record { method = codes "GET"; host = host; header = fields d key cookies }

module _ (d : Dialer) (key host : Bytes) (cookies h : Header) (r : Request)
    (asked : dial_request d key host cookies h ≡ some r) where
  plain_field :
      (j : Bytes)
      → is_reserved d j ≡ true
      → equal extensions_field j ≡ false
      → equal protocol_field j ≡ false
      → values r.header j ≡ handshake_field d key cookies j
  plain_field j reserved no_extension no_protocol =
      (values-dial_request d key host cookies h r j asked reserved).0
      ∙ rw no_extension (ground (arith, values-fields d key cookies j no_protocol))

  asks_connection : header_contains r.header connection (codes "upgrade") ≡ true
  unfolding header_contains header_values contains_any equal_ascii_fold is_token_octet is_reserved
      equal
  asks_connection = rw (plain_field connection refl refl refl) refl

  asks_upgrade : header_contains r.header upgrade_field (codes "websocket") ≡ true
  unfolding header_contains header_values contains_any equal_ascii_fold is_token_octet is_reserved
      equal
  asks_upgrade = rw (plain_field upgrade_field refl refl refl) refl

  asks_version : header_contains r.header version_field (codes "13") ≡ true
  unfolding header_contains header_values contains_any equal_ascii_fold is_token_octet is_reserved
      equal
  asks_version = rw (plain_field version_field refl refl refl) refl

  pub asks_key : get r.header key_field ≡ key
  unfolding get is_reserved equal
  asks_key = rw (plain_field key_field refl refl refl) refl

  asks_method : r.method ≡ codes "GET"
  unfolding is_reserved equal
  asks_method = (values-dial_request d key host cookies h r key_field asked refl).1

  asks_compression :
      values cookies extensions_field ≡ none
      → offers_deflate (parse_extensions r.header) ≡ d.enable_compression
  unfolding parse_extensions header_values all_extensions offers_deflate is_token_octet is_reserved
      equal
  asks_compression unset =
      let found = (values-dial_request d key host cookies h r extensions_field asked refl).0 in
      let plain = values-fields d key cookies extensions_field refl ∙ unset in
      elim (Bool-cases d.enable_compression) [
        | inl on ↦ rw (found, on) refl
        | inr off ↦ simp (found, off, plain)
      ]

  -- commCheck takes every request that DialContext makes for a key that is not empty: it gives that
  -- key, and compresses exactly when both sides want to. The origin is allowed, and neither the
  -- cookies nor the header of the response set the field of the extensions.
  pub comm_check-dial_request :
      (o : Outside) (u : Upgrader) (response_header : Header)
      → is_nil key ≡ false
      → values cookies extensions_field ≡ none
      → values response_header extensions_field ≡ none
      → allows_origin o u.check_origin r ≡ true
      → comm_check o u r response_header
        ≡ accepted key
            (select_subprotocol u r response_header)
            (u.enable_compression && d.enable_compression)
  unfolding comm_check equal
  comm_check-dial_request o u response_header some_key no_cookie no_field allowed =
      simp
        (
          asks_connection,
          asks_upgrade,
          asks_method,
          asks_version,
          asks_key,
          asks_compression no_cookie,
          no_field,
          allowed,
          some_key,
        )
        (ground arith)
