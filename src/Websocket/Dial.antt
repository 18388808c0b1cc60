-- ===== src/Websocket/Dial.antt =====
-- nbhttp/websocket/dialer.go: the request that DialContext sends, and what it checks of the response.
pub mod Asking
pub mod Answering
pub mod Wire
pub mod Reading
pub mod Receiving
pub mod Agreed
pub mod Protocols
pub mod Selected
mod Tests
use nbio.Base.{
  ℕ, Bool, true, false, not, ◌&&◌, ◌||◌, List, [], ◌∷◌, ◌++◌, Option, none, some, Bytes, is_nil,
  ◌==◌, if◌then◌else◌, equal, codes,
}
use nbio.Go.Header.{Header, get}
use nbio.Websocket.Tokens.{Extension, header_contains, look, parse_extensions}
use nbio.Websocket.Upgrade.{
  Outside, Request, connection, upgrade_field, version_field, key_field, accept_field,
  protocol_field, extensions_field, is_deflate, accept_key,
}

-- h[k] = vs
unfoldable pub assign : Header → Bytes → List Bytes → Header
unfolding equal
assign [] k vs = (k, vs) ∷ []
assign ((j, ws) ∷ h) k vs = if equal j k then (j, vs) ∷ h else (j, ws) ∷ assign h k vs

-- Subprotocols of Dialer, and enableCompression of its options.
pub record Dialer : Type 0 where
  pub subprotocols : List Bytes
  pub enable_compression : Bool

-- strings.Join(a, ", ")
unfoldable pub join : List Bytes → Bytes
join [] = []
join (s ∷ []) = s
join (s ∷ t ∷ ss) = s ++ (b',' ∷ b' ' ∷ join (t ∷ ss))

-- The names that the request header may not hold.
unfoldable pub is_reserved : Dialer → Bytes → Bool
is_reserved d k =
    equal k upgrade_field
    || equal k connection
    || equal k key_field
    || equal k version_field
    || equal k extensions_field
    || equal k protocol_field && not (is_nil d.subprotocols)

abbrev set_host : List Bytes → Request → Request
set_host [] r = r
set_host (v ∷ _) r = record r { host = v }

-- The loop over requestHeader; `none` is the error for a duplicate header.
unfoldable pub merge : Dialer → Header → Request → Option Request
unfolding is_reserved assign
merge d [] r = some r
merge d ((k, vs) ∷ h) r =
    let host = merge d h (set_host vs r) in
    let field = merge d h (record r { header = assign r.header k vs }) in
    if equal k (codes "Host") then host else if is_reserved d k then none else field

abbrev pub offer : Bytes
offer = codes "permessage-deflate; server_no_context_takeover; client_no_context_takeover"

-- The fields of the handshake, on top of the cookies.
unfoldable pub fields : Dialer → (challenge_key : Bytes) → Header → Header
unfolding assign join
fields d challenge_key cookies =
    let h =
      assign
        (assign
          (assign (assign cookies upgrade_field (codes "websocket" ∷ [])) connection
            (codes "Upgrade" ∷ []))
          key_field (challenge_key ∷ []))
        version_field (codes "13" ∷ []) in
    if is_nil d.subprotocols then h else assign h protocol_field (join d.subprotocols ∷ [])

with_offer : Dialer → Option Request → Option Request
with_offer d none = none
with_offer d (some r) =
    if d.enable_compression
    then some (record r { header = assign r.header extensions_field (offer ∷ []) })
    else some r

-- The request of a ws or wss URL with no user.
unfoldable pub dial_request :
    Dialer → (challenge_key host : Bytes) → (cookies request_header : Header) → Option Request
unfolding fields merge with_offer
dial_request d challenge_key host cookies request_header = with_offer d (
    merge d request_header
      (record { method = codes "GET"; host = host; header = fields d challenge_key cookies }))

pub data Dialed : Type 0 where
  bad_handshake invalid_compression : Dialed
  connected : (subprotocol : Bytes) (compress : Bool) → Dialed

pub data Negotiated : Type 0 where
  plain incomplete compressed : Negotiated

abbrev is_some : Option Bytes → Bool
is_some none = false
is_some (some v) = true

-- The loop over the extensions of the response.
unfoldable pub negotiated : List Extension → Negotiated
unfolding is_deflate look
negotiated [] = plain
negotiated (ext ∷ exts) =
    let more = negotiated exts in
    if is_deflate ext
    then (if is_some (look ext (codes "server_no_context_takeover"))
          && is_some (look ext (codes "client_no_context_takeover"))
        then compressed
        else incomplete)
    else more

abbrev conclude : Negotiated → Bytes → Dialed
conclude plain p = connected p false
conclude incomplete p = invalid_compression
conclude compressed p = connected p true

-- What the handler of the response decides, of a connection that the poller reads.
unfoldable pub check_response : Outside → (challenge_key : Bytes) → (status : ℕ) → Header → Dialed
unfolding negotiated accept_key
check_response o challenge_key status h =
    if not (status == 101)
      || not (header_contains h upgrade_field (codes "websocket"))
      || not (header_contains h connection (codes "upgrade"))
      || not (equal (get h accept_field) (accept_key o challenge_key))
    then bad_handshake
    else conclude (negotiated (parse_extensions h)) (get h protocol_field)
