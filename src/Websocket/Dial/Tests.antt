-- ===== src/Websocket/Dial/Tests.antt =====
-- The theorems on token lists and on the handshake at concrete inputs, and a handshake over the wire:
-- what commResponse writes goes through nbhttp.Parser and ClientProcessor.
use nbio.Base.{◌≡◌, refl, true, false, List, [], ◌∷◌, none, some, inr, codes, map, equal}
use nbio.Go.Number.{atoi, parse_int}
use nbio.Http.Table.{is_alpha, is_num, is_token}
use nbio.Http.Parser.Framing.{
  is_framing_key, parse_transfer_encoding, parse_content_length, parse_trailer, trim_end,
}
use nbio.Http.Parser.Loop.{parse, step_in}
use nbio.Http.Parser.State.{new_parser}
use nbio.Http.Parser.Contract.Sessions.{parsing, calls}
use nbio.Http.Processor
use nbio.Http.Processor.{HttpResponse, Event, handled, executing_response}
use nbio.Http.Processor.Client
use nbio.Http.Processor.Client.{
  new_client_processor, client_processor, on_status, on_header, on_content_length,
}
use nbio.Go.Header.{Header, values, get, add, canonical_header_key, is_header_byte}
use nbio.Websocket.Tokens.{header_contains, header_values, parse_extensions, is_token_octet}
use nbio.Websocket.Tokens.Words.{lists, is_word}
use nbio.Websocket.Tokens.Listed.{header_contains_lem}
use nbio.Websocket.Tokens.Params.{bare, quoted, flag}
use nbio.Websocket.Tokens.Offers.{
  Offer, joined, extension_of, offers_text, parse_extensions-offers_text,
}
use nbio.Websocket.Upgrade.{
  Outside, Request, Upgrader, accepted, comm_check, comm_response, select_subprotocol, connection,
  allows_origin,
}
use nbio.Websocket.Dial.{Dialer, dial_request}
use nbio.Websocket.Dial.Asking.{comm_check-dial_request}
use nbio.Websocket.Dial.Receiving.{answered}
use nbio.Websocket.Dial.Selected.{Chosen, select_subprotocol-Chosen}

-- A digest that repeats what it is given.
abbrev outside : Outside
outside = record { digest = λ s. s; parse_host = λ s. some s }

abbrev upgrader : Upgrader
upgrader = record {
  subprotocols = some (codes "v2" ∷ codes "chat" ∷ []);
  check_origin = none;
  enable_compression = true;
}

abbrev dialer : Dialer
dialer = record { subprotocols = codes "chat" ∷ codes "v1" ∷ []; enable_compression = true }

abbrev extra : Header
extra = (codes "X-Trace", codes "a\r\nb" ∷ []) ∷ []

abbrev request : Request
request = record {
  method = codes "GET";
  host = codes "h";
  header =
      (codes "Upgrade", codes "websocket" ∷ [])
      ∷ (codes "Connection", codes "Upgrade" ∷ [])
      ∷ (codes "Sec-Websocket-Key", codes "k" ∷ [])
      ∷ (codes "Sec-Websocket-Version", codes "13" ∷ [])
      ∷ (codes "Sec-Websocket-Protocol", codes "chat, v1" ∷ [])
      ∷ (
        codes "Sec-Websocket-Extensions",
        codes "permessage-deflate; server_no_context_takeover; client_no_context_takeover" ∷ [],
      )
      ∷ [];
}

request_lem : dial_request dialer (codes "k") (codes "h") [] [] ≡ some request
unfolding dial_request
request_lem = refl

header_contains_lem_example :
    header_contains request.header connection (codes "upgrade")
    ≡ lists (codes "upgrade") (header_values request.header connection)
header_contains_lem_example = header_contains_lem request.header connection (codes "upgrade")

abbrev offers : List Offer
offers =
    record {
      token = codes "x";
      params = (codes "a", quoted (codes "\"\\,")) ∷ (codes "b", flag) ∷ [];
    }
    ∷ record { token = codes "y"; params = (codes "c", bare (codes "7")) ∷ [] }
    ∷ []

abbrev offered : Header
offered = (codes "Sec-Websocket-Extensions", offers_text offers ∷ []) ∷ []

offered_values : header_values offered (codes "Sec-Websocket-Extensions") ≡ offers_text offers ∷ []
unfolding header_values values equal
offered_values = refl

parse_extensions-offers_text_example :
    parse_extensions offered ≡ map extension_of (joined (offers ∷ []))
unfolding is_word is_token_octet
parse_extensions-offers_text_example =
    parse_extensions-offers_text offered (offers ∷ [])
      ((refl, (refl, tt, (refl, tt, tt)), (refl, (refl, refl, tt), tt)), tt) offered_values

allowed : allows_origin outside none request ≡ true
unfolding allows_origin values
allowed = refl

comm_check-dial_request_example :
    comm_check outside upgrader request extra
    ≡ accepted (codes "k") (select_subprotocol upgrader request extra) true
unfolding values
comm_check-dial_request_example =
    comm_check-dial_request dialer (codes "k") (codes "h") [] [] request request_lem outside
      upgrader extra refl refl refl allowed

select_subprotocol-Chosen_example :
    Chosen
      (codes "v2" ∷ codes "chat" ∷ [])
      dialer.subprotocols
      (select_subprotocol upgrader request extra)
unfolding is_word is_token_octet
select_subprotocol-Chosen_example =
    select_subprotocol-Chosen upgrader (codes "v2" ∷ codes "chat" ∷ []) extra dialer (codes "k")
      (codes "h") [] [] request request_lem (refl, (refl, tt)) refl refl

abbrev processing : Processor.Outside
processing = record {
  parse_request_uri = λ s. inr (record { scheme = []; host = []; rest = s });
  parse_http_version = λ s. some (1, 1);
  allocation = record { max_http_body_size = 0; capacity_for = λ n. n };
  has_write_timeout = false;
  has_on_request = false;
  retain_http_body = false;
  remote_addr = codes "r";
  execute = true;
  upgrades = false;
  upgraded = λ b. none;
}

-- The header of the first response that the handler is given.
abbrev header_of : List Event → Header
header_of [] = []
header_of (handled r ∷ es) = r.header
header_of (executing_response r ∷ es) = r.header
header_of (_ ∷ es) = header_of es

-- Through nbhttp.Parser and ClientProcessor the client has the header that the lines of the response are read as.
over_the_wire :
    header_of
      (calls
        (client_processor processing)
        (new_parser new_client_processor 0 true)
        (parsing (comm_response outside extra (codes "k") (codes "chat") true) ∷ [])).world.events
    ≡ answered outside extra (codes "k") (codes "chat") true
unfolding comm_response answered calls parse equal new_parser add step_in canonical_header_key
    Client.on_proto Client.on_complete on_status is_num atoi parse_int is_alpha is_token
    parse_transfer_encoding is_framing_key parse_content_length get parse_trailer on_content_length
    on_header trim_end is_header_byte
over_the_wire = refl
