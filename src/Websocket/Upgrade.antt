-- ===== src/Websocket/Upgrade.antt =====
-- nbhttp/websocket/upgrader.go: what the server checks of a handshake and what it answers: commCheck,
-- selectSubprotocol, subprotocols, checkSameOrigin, acceptKeyBytes and commResponse. The digest of
-- crypto/sha1 in the text of encoding/base64, and url.Parse, are the parameter Outside.
use nbio.Base.{
  ℕ, Bool, true, false, not, List, [], ◌∷◌, ◌++◌, Option, none, some, Bytes, is_nil, leb,
  if◌then◌else◌, equal, codes,
}
use nbio.Go.Text.{split}
use nbio.Go.Runes.{trim_space}
use nbio.Go.Header.{Header, values, get}
use nbio.Websocket.Tokens.{
  Extension, equal_ascii_fold, header_contains, header_values, look, parse_extensions,
}

-- base64.StdEncoding of sha1.Sum, and the Host of what url.Parse gives, or its failure.
pub record Outside : Type 0 where
  pub digest : Bytes → Bytes
  pub parse_host : Bytes → Option Bytes

-- Method, Host and Header of an http.Request.
pub record Request : Type 0 where
  pub method : Bytes
  pub host : Bytes
  pub header : Header

-- The fields of Upgrader that a handshake reads. A nil slice and a nil function are `none`.
pub record Upgrader : Type 0 where
  pub subprotocols : Option (List Bytes)
  pub check_origin : Option (Request → Bool)
  pub enable_compression : Bool

pub data UpgradeError : Type 0 where
  token_not_found method_is_get invalid_websocket_version unsupported_extensions : UpgradeError
  origin_not_allowed missing_websocket_key : UpgradeError

-- The challenge key, the subprotocol and whether to compress; or what returnError was called with.
pub data Checked : Type 0 where
  accepted : (key subprotocol : Bytes) (compress : Bool) → Checked
  refused : (status : ℕ) → UpgradeError → Checked

abbrev pub connection : Bytes
connection = codes "Connection"

abbrev pub upgrade_field : Bytes
upgrade_field = codes "Upgrade"

abbrev pub version_field : Bytes
version_field = codes "Sec-Websocket-Version"

abbrev pub key_field : Bytes
key_field = codes "Sec-Websocket-Key"

abbrev pub accept_field : Bytes
accept_field = codes "Sec-Websocket-Accept"

abbrev pub protocol_field : Bytes
protocol_field = codes "Sec-Websocket-Protocol"

abbrev pub extensions_field : Bytes
extensions_field = codes "Sec-Websocket-Extensions"

unfoldable pub trim_all : List Bytes → List Bytes
trim_all [] = []
trim_all (s ∷ ss) = trim_space s ∷ trim_all ss

unfoldable pub subprotocols : Request → List Bytes
unfolding trim_all
subprotocols r =
    let h = trim_space (get r.header protocol_field) in
    if is_nil h then [] else trim_all (split b',' h)

unfoldable pub mem : Bytes → List Bytes → Bool
mem p [] = false
mem p (c ∷ cs) = if equal c p then true else mem p cs

-- The two loops of selectSubprotocol.
unfoldable pub first_common : (server client : List Bytes) → Bytes
unfolding mem
first_common [] client = []
first_common (s ∷ server) client = if mem s client then s else first_common server client

unfoldable pub select_subprotocol : Upgrader → Request → Header → Bytes
unfolding subprotocols first_common
select_subprotocol u r response_header = chosen u.subprotocols
  where
    chosen : Option (List Bytes) → Bytes
    chosen none = get response_header protocol_field
    chosen (some server) = first_common server (subprotocols r)

same_host : Option Bytes → Bytes → Bool
same_host none host = false
same_host (some h) host = equal_ascii_fold h host

unfoldable pub check_same_origin : Outside → Request → Bool
unfolding same_host header_values
check_same_origin o r = check (header_values r.header (codes "Origin"))
  where
    check : List Bytes → Bool
    check [] = true
    check (origin ∷ _) = same_host (o.parse_host origin) r.host

unfoldable pub allows_origin : Outside → Option (Request → Bool) → Request → Bool
unfolding check_same_origin
allows_origin o none r = check_same_origin o r
allows_origin o (some check) r = check r

abbrev pub deflate : Bytes
deflate = codes "permessage-deflate"

is_named : Bytes → Option Bytes → Bool
is_named name none = is_nil name
is_named name (some t) = equal t name

-- ext[""] != "permessage-deflate": a missing key reads as "".
unfoldable pub is_deflate : Extension → Bool
unfolding is_named look
is_deflate ext = is_named deflate (look ext [])

unfoldable pub offers_deflate : List Extension → Bool
unfolding is_deflate
offers_deflate [] = false
offers_deflate (ext ∷ exts) = if is_deflate ext then true else offers_deflate exts

abbrev pub is_missing : Option (List Bytes) → Bool
is_missing none = true
is_missing (some vs) = false

unfoldable pub comm_check : Outside → Upgrader → Request → Header → Checked
unfolding offers_deflate
comm_check o u r response_header =
    let key = get r.header key_field in
    let compress =
      if u.enable_compression then offers_deflate (parse_extensions r.header) else false in
    if not (header_contains r.header connection (codes "upgrade"))
    then refused 400 token_not_found
    else if not (header_contains r.header upgrade_field (codes "websocket"))
    then refused 400 token_not_found
    else if not (equal r.method (codes "GET"))
    then refused 405 method_is_get
    else if not (header_contains r.header version_field (codes "13"))
    then refused 400 invalid_websocket_version
    else if not (is_missing (values response_header extensions_field))
    then refused 500 unsupported_extensions
    else if not (allows_origin o u.check_origin r)
    then refused 403 origin_not_allowed
    else if is_nil key
    then refused 400 missing_websocket_key
    else accepted key (select_subprotocol u r response_header) compress

abbrev pub key_guid : Bytes
key_guid = codes "258EAFA5-E914-47DA-95CA-C5AB0DC85B11"

unfoldable pub accept_key : Outside → Bytes → Bytes
accept_key o key = o.digest (key ++ key_guid)

abbrev pub crlf : Bytes
crlf = b'\r' ∷ b'\n' ∷ []

-- A byte of a value of the response: control bytes become blanks.
unfoldable pub safe_bytes : Bytes → Bytes
safe_bytes [] = []
safe_bytes (c ∷ cs) = (if leb c 31 then b' ' else c) ∷ safe_bytes cs

unfoldable pub value_lines : Bytes → List Bytes → Bytes
unfolding safe_bytes
value_lines k [] = []
value_lines k (v ∷ vs) = k ++ (b':' ∷ b' ' ∷ (safe_bytes v ++ (crlf ++ value_lines k vs)))

-- The loop over responseHeader.
unfoldable pub header_lines : Header → Bytes
unfolding value_lines
header_lines [] = []
header_lines ((k, vs) ∷ h) =
    if equal k protocol_field then header_lines h else value_lines k vs ++ header_lines h

abbrev pub protocol_line : Bytes → Bytes
protocol_line [] = []
protocol_line (c ∷ cs) = codes "Sec-WebSocket-Protocol: " ++ ((c ∷ cs) ++ crlf)

abbrev pub extension_line : Bool → Bytes
extension_line compress =
    if compress
    then codes
        "Sec-WebSocket-Extensions: permessage-deflate; server_no_context_takeover; client_no_context_takeover\r\n"
    else []

-- What commResponse writes.
unfoldable pub comm_response :
    Outside → Header → (challenge_key subprotocol : Bytes) → (compress : Bool) → Bytes
unfolding header_lines accept_key
comm_response o response_header challenge_key subprotocol compress =
    codes
      "HTTP/1.1 101 Switching Protocols\r\nUpgrade: websocket\r\nConnection: Upgrade\r\nSec-WebSocket-Accept: "
    ++ (accept_key o challenge_key
        ++ (crlf
            ++ (protocol_line subprotocol
                ++ (extension_line compress ++ (header_lines response_header ++ crlf)))))
