-- ===== src/Http/Processor/Tests.antt =====
-- Runs of the processors under the parser, and the theorems at concrete inputs.
use nbio.Base.{
  ◌≡◌, refl, true, false, List, [], ◌∷◌, none, some, Bytes, pos, inr, codes, ◌≢◌, equal,
}
use nbio.Go.Text.{to_upper, to_lower, trim_blanks}
use nbio.Go.Header.{canonical_header_key, is_header_byte, add, get}
use nbio.Go.Number.{atoi, parse_int}
use nbio.Http.Table.{is_valid_method_char, is_valid_method, is_alpha, is_num, is_hex, is_token}
use nbio.Http.Body.{append, new_body_reader}
use nbio.Http.Parser.Framing.{
  is_framing_key, parse_and_validate_chunk_size, parse_transfer_encoding, parse_content_length,
  parse_trailer, trim_end,
}
use nbio.Http.Parser.Loop.{parse, step_in}
use nbio.Http.Parser.State.{new_parser}
use nbio.Http.Parser.Contract.{broken}
use nbio.Http.Parser.Contract.Sessions.{Call, parsing, closing, calls, Returns, calls-Unbroken}
use nbio.Http.Processor.{HttpRequest, Event, executing, Outside}
use nbio.Http.Processor.Server.{
  new_server_processor, server_processor, wants_close, on_method, on_url, on_proto, on_header,
  on_content_length, on_body, on_complete, completed, connection_values,
}
use nbio.Http.Processor.Client.{new_client_processor, client_processor}
use nbio.Http.Processor.Serving.{
  server_phase, server-Serves, server_never_panics, client_never_panics,
}

-- A URL is taken as a path, an empty one is refused; every version is 1.1.
abbrev outside : Outside
outside = record {
  parse_request_uri = λ s. inr (record { scheme = []; host = []; rest = s });
  parse_http_version = λ s. some (1, 1);
  allocation = record { max_http_body_size = 0; capacity_for = λ n. n };
  has_write_timeout = false;
  has_on_request = false;
  retain_http_body = false;
  remote_addr = codes "r";
  execute = true;
  upgrades = false;
  upgraded = λ b. none;
}

abbrev request_text : Bytes
request_text =
    codes "POST /a HTTP/1.1\r\nHost: h\r\nContent-Length: 2\r\nConnection: Close\r\n\r\nxyGE"

abbrev response_text : Bytes
response_text = codes "HTTP/1.1 101 S\r\nA: b\r\n\r\n"

abbrev expected_request : HttpRequest
expected_request = record {
  method = codes "POST";
  request_uri = codes "/a";
  url = some (record { scheme = []; host = codes "h"; rest = codes "/a" });
  proto = codes "HTTP/1.1";
  proto_major = 1;
  proto_minor = 1;
  header =
      (codes "Host", codes "h" ∷ [])
      ∷ (codes "Content-Length", codes "2" ∷ [])
      ∷ (codes "Connection", codes "Close" ∷ [])
      ∷ [];
  content_length = pos 2;
  body = some (record {
    index = 0;
    left = 2;
    buffers = record { content = codes "xy"; capacity = 2 } ∷ [];
    closed = false;
    freed = [];
  });
  trailer = [];
  host = codes "h";
  remote_addr = codes "r";
  transfer_encoding = [];
  close = true;
}

-- A request that comes in two pieces, the start of another, and the end of the connection.
abbrev talk : List Call
talk = parsing (codes "POST /a HT") ∷ parsing (codes "TP/1.1") ∷ closing none ∷ []

server_never_panics_example :
    (calls (server_processor outside) (new_parser new_server_processor 0 false) talk).world.panicked
    ≡ false
server_never_panics_example = server_never_panics outside 0 talk

client_never_panics_example :
    (calls
      (client_processor outside)
      (new_parser new_client_processor 0 true)
      (parsing response_text ∷ closing none ∷ [])).world.panicked
    ≡ false
client_never_panics_example =
    client_never_panics outside refl 0 (parsing response_text ∷ closing none ∷ [])

calls-Unbroken_example :
    Returns (server_processor outside) (new_parser new_server_processor 0 false) talk
    × (server_phase
          (calls (server_processor outside) (new_parser new_server_processor 0 false) talk).world
        ≢ broken)
calls-Unbroken_example =
    calls-Unbroken server_phase false true (server_processor outside) (server-Serves outside)
      new_server_processor refl 0 talk

-- A value that lists several words is none of them.
close_in_a_list : wants_close 1 1 (codes "close, TE" ∷ []) ≡ false
unfolding wants_close connection_values to_lower trim_blanks equal
close_in_a_list = refl

-- What the server's processor calls, given some data.
served : Bytes → List Event
unfolding calls parse step_in new_parser is_framing_key parse_and_validate_chunk_size
    parse_transfer_encoding parse_content_length parse_trailer get trim_end parse_int
    is_valid_method_char is_valid_method is_alpha is_num is_hex is_token to_upper atoi
    canonical_header_key is_header_byte add on_method on_url on_proto on_header on_content_length
    on_body on_complete completed wants_close connection_values to_lower trim_blanks append
    new_body_reader
served more =
    (calls (server_processor outside) (new_parser new_server_processor 0 false)
      (parsing more ∷ [])).world.events

whole_request : served request_text ≡ executing expected_request ∷ []
unfolding served
whole_request = refl
