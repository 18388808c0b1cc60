-- ===== src/Websocket/Dial/Answering.antt =====
-- What commResponse of nbhttp/websocket/upgrader.go writes, as lines of fields.
use mathlib.Core.List.{append_assoc}
use nbio.Base.{
  Bool, true, false, List, [], ◌∷◌, ◌++◌, ◌≡◌, refl, sym, ap, ◌∙◌, Bytes, if◌then◌else◌, equal,
  codes, arith,
}
use nbio.Go.Header.{Header}
use nbio.Websocket.Upgrade.{
  Outside, protocol_field, accept_key, safe_bytes, value_lines, header_lines, crlf, protocol_line,
  extension_line, comm_response,
}
use nbio.Websocket.Dial.{offer}

abbrev pub Fields : Type 0
Fields = List (Bytes × Bytes)

unfoldable pub value_fields : Bytes → List Bytes → Fields
value_fields k [] = []
value_fields k (v ∷ vs) = (k, safe_bytes v) ∷ value_fields k vs

-- The fields of the header that the handler of the upgrade asked for, but for the subprotocol.
unfoldable pub extra_fields : Header → Fields
unfolding value_fields
extra_fields [] = []
extra_fields ((k, vs) ∷ h) =
    if equal k protocol_field then extra_fields h else value_fields k vs ++ extra_fields h

abbrev pub protocol_fields : Bytes → Fields
protocol_fields [] = []
protocol_fields (c ∷ cs) = (codes "Sec-WebSocket-Protocol", c ∷ cs) ∷ []

abbrev pub extension_fields : Bool → Fields
extension_fields compress = if compress then (codes "Sec-WebSocket-Extensions", offer) ∷ [] else []

-- The fields of the response.
unfoldable pub answer_fields : Outside → Header → (key subprotocol : Bytes) → Bool → Fields
unfolding extra_fields
answer_fields o h key subprotocol compress =
    (codes "Upgrade", codes "websocket")
    ∷ (codes "Connection", codes "Upgrade")
    ∷ (codes "Sec-WebSocket-Accept", accept_key o key)
    ∷ (protocol_fields subprotocol ++ (extension_fields compress ++ extra_fields h))

unfoldable pub lines : Fields → Bytes
lines [] = []
lines ((k, v) ∷ fs) = k ++ (b':' ∷ b' ' ∷ (v ++ (crlf ++ lines fs)))

value_lines-lines :
    (k : Bytes) (vs : List Bytes) (fs : Fields)
    → value_lines k vs ++ lines fs ≡ lines (value_fields k vs ++ fs)
unfolding value_lines lines value_fields
value_lines-lines k [] fs = refl
value_lines-lines k (v ∷ vs) fs = rw append_assoc (rw append_assoc (rw (value_lines-lines k vs fs)))

header_lines-lines : (h : Header) → header_lines h ≡ lines (extra_fields h)
unfolding header_lines lines extra_fields
header_lines-lines [] = refl
header_lines-lines ((k, vs) ∷ h) =
    ground (arith, header_lines-lines h, value_lines-lines k vs (extra_fields h))

answer_tail :
    (h : Header) (subprotocol : Bytes) (compress : Bool)
    → protocol_line subprotocol ++ (extension_line compress ++ (header_lines h ++ crlf))
      ≡ lines (protocol_fields subprotocol ++ (extension_fields compress ++ extra_fields h)) ++ crlf
unfolding lines
answer_tail h [] true = rw (header_lines-lines h)
answer_tail h [] false = rw (header_lines-lines h)
answer_tail h (c ∷ cs) true = rw (header_lines-lines h) (simp append_assoc)
answer_tail h (c ∷ cs) false = rw (header_lines-lines h) (simp append_assoc)

-- What commResponse writes is the status line, the lines of the fields and an empty line.
pub comm_response-lines :
    (o : Outside) (h : Header) (key subprotocol : Bytes) (compress : Bool)
    → comm_response o h key subprotocol compress
      ≡ codes "HTTP/1.1 101 Switching Protocols\r\n"
        ++ (lines (answer_fields o h key subprotocol compress) ++ crlf)
unfolding comm_response answer_fields lines
comm_response-lines o h key subprotocol compress =
    let answer = accept_key o key in
    let behind =
      lines (protocol_fields subprotocol ++ (extension_fields compress ++ extra_fields h)) in
    ap (λ (t : Bytes). front ++ (answer ++ (crlf ++ t))) (answer_tail h subprotocol compress)
    ∙ ap (λ (t : Bytes). front ++ t) (sym (append_assoc answer (crlf ++ behind) crlf))
  where
    front : Bytes
    front =
        codes
          "HTTP/1.1 101 Switching Protocols\r\nUpgrade: websocket\r\nConnection: Upgrade\r\nSec-WebSocket-Accept: "
