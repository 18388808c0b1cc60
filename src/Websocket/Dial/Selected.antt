-- ===== src/Websocket/Dial/Selected.antt =====
-- selectSubprotocol of nbhttp/websocket/upgrader.go for a request of nbhttp/websocket/dialer.go.
use nbio.Base.{
  true, false, List, [], ◌∷◌, ◌++◌, some, ◌≡◌, refl, ap, ◌∙◌, Bytes, is_nil, Bool-cases, inl, inr,
  ◌⊎◌, equal, arith,
}
use nbio.Go.Header.{Header, values, first, get}
use nbio.Websocket.Upgrade.{
  Request, Upgrader, protocol_field, extensions_field, subprotocols, mem, first_common,
  select_subprotocol,
}
use nbio.Websocket.Dial.{Dialer, join, is_reserved, fields, dial_request}
use nbio.Websocket.Dial.Asking.{values-assign, values-dial_request}
use nbio.Websocket.Dial.Protocols.{AreWords, subprotocols-join}

-- No entry of the first list is in the second.
abbrev pub Apart : (server client : List Bytes) → Type 0
Apart [] client = Unit {0}
Apart (s ∷ server) client = (mem s client ≡ false) × Apart server client

-- The first subprotocol of the server that the client has, or "" where there is none.
unfoldable pub Chosen : (server client : List Bytes) → Bytes → Type 0
Chosen server client p =
    ((before : List Bytes) × (behind : List Bytes) × (server ≡ before ++ p ∷ behind)
      × Apart before client
      × (mem p client ≡ true))
    ⊎ (Apart server client × (p ≡ []))

Chosen-here :
    (s : Bytes) (server client : List Bytes) → mem s client ≡ true → Chosen (s ∷ server) client s
unfolding Chosen
Chosen-here s server client e = inl ([], server, refl, tt, e)

Chosen-skip :
    (s p : Bytes) (server client : List Bytes)
    → mem s client ≡ false
    → Chosen server client p
    → Chosen (s ∷ server) client p
unfolding Chosen
Chosen-skip s p server client e (inl (before, behind, eq, apart, found)) =
    inl (s ∷ before, behind, ap (λ t. s ∷ t) eq, (e, apart), found)
Chosen-skip s p server client e (inr (apart, nothing)) = inr ((e, apart), nothing)

first_common-Chosen :
    (server client : List Bytes) → Chosen server client (first_common server client)
unfolding first_common
first_common-Chosen [] client = unfold Chosen in inr (tt, refl)
first_common-Chosen (s ∷ server) client = elim (Bool-cases (mem s client)) [
  | inl e ↦ rw e (Chosen-here s server client e)
  | inr e ↦ rw e (Chosen-skip s _ server client e (first_common-Chosen server client))
]

fields-protocol :
    (d : Dialer) (key : Bytes) (cookies : Header)
    → is_nil d.subprotocols ≡ false
    → values (fields d key cookies) protocol_field ≡ some (join d.subprotocols ∷ [])
unfolding fields equal
fields-protocol d key cookies e = rw e (rw (values-assign _ protocol_field protocol_field _) refl)

reserved_protocol :
    (d : Dialer) → is_nil d.subprotocols ≡ false → is_reserved d protocol_field ≡ true
unfolding is_reserved equal
reserved_protocol d e = rw e

no_extension : equal extensions_field protocol_field ≡ false
unfolding equal
no_extension = refl

asks_protocols :
    (d : Dialer) (key host : Bytes) (cookies h : Header) (r : Request)
    → dial_request d key host cookies h ≡ some r
    → is_nil d.subprotocols ≡ false
    → get r.header protocol_field ≡ join d.subprotocols
unfolding get
asks_protocols d key host cookies h r asked e =
    let found =
      (values-dial_request d key host cookies h r protocol_field asked (reserved_protocol d e)).0 in
    let set : values r.header protocol_field ≡ some (join d.subprotocols ∷ []) =
      found ∙ rw no_extension (ground (arith, fields-protocol d key cookies e)) in
    ap first set

-- The subprotocols that the client sends are those that the server reads, in their order.
pub subprotocols-dial_request :
    (d : Dialer) (key host : Bytes) (cookies h : Header) (r : Request)
    → dial_request d key host cookies h ≡ some r
    → AreWords d.subprotocols
    → is_nil d.subprotocols ≡ false
    → subprotocols r ≡ d.subprotocols
subprotocols-dial_request d key host cookies h r asked words any =
    from d.subprotocols refl words any
  where
    from :
        (ps : List Bytes)
        → d.subprotocols ≡ ps
        → AreWords ps
        → is_nil ps ≡ false
        → subprotocols r ≡ ps
    from [] e words any = cc
    from (w ∷ ws) e words any =
        subprotocols-join r w ws (asks_protocols d key host cookies h r asked (rw e any) ∙ rw e)
          words

-- selectSubprotocol, for the request of a client with subprotocols that are words, gives the first
-- of the server's that the client has, or "" where they have none in common.
pub select_subprotocol-Chosen :
    (u : Upgrader) (server : List Bytes) (response_header : Header) (d : Dialer) (key host : Bytes)
    (cookies h : Header) (r : Request)
    → dial_request d key host cookies h ≡ some r
    → AreWords d.subprotocols
    → is_nil d.subprotocols ≡ false
    → u.subprotocols ≡ some server
    → Chosen server d.subprotocols (select_subprotocol u r response_header)
unfolding select_subprotocol
select_subprotocol-Chosen u server rh d key host cookies h r asked words any has =
    rw (has, subprotocols-dial_request d key host cookies h r asked words any)
      (first_common-Chosen server d.subprotocols)
