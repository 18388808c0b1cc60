-- ===== src/Http/Parser/State.antt =====
-- nbhttp/state.go and the data model of nbhttp/parser.go: the parser's states, its fields, its
-- errors, and the interface Processor that it reports to.
use nbio.Base.{
  ℕ, Bool, true, false, Option, none, some, List, [], ◌∷◌, ◌++◌, Bytes, ℤ, is_nil, if◌then◌else◌,
}
use nbio.Go.Header.{Header}

pub data State : Type 0 where
  close method_before method : State
  path_before path proto_before proto proto_lf : State
  client_proto_before client_proto status_code_before status_code : State
  status_before status status_lf : State
  header_key_before header_value_lf header_key header_value_before header_value : State
  body_content_length : State
  header_over_lf body_chunk_size_before body_chunk_size body_chunk_size_lf : State
  body_chunk_data body_chunk_data_cr body_chunk_data_lf : State
  body_trailer_header_value_lf body_trailer_header_key_before body_trailer_header_key : State
  body_trailer_header_value_before body_trailer_header_value : State
  tail_cr tail_lf : State

-- The named errors of nbhttp/error.go that the parser returns, a constructor for each kind of error
-- that it formats itself, and `processor` for what a Processor or a ParserCloser returned.
pub data Error : Type 0 where
  closed too_long invalid_method invalid_request_uri invalid_http_status_code : Error
  invalid_http_status lf_expected cr_expected invalid_char_in_header invalid_chunk_size : Error
  trailer_expected unexpected_content_length invalid_content_length : Error
  bad_status_code bad_chunk_size too_many_transfer_encodings unsupported_transfer_encoding : Error
  bad_content_length bad_trailer_key invalid_trailer : Error
  processor : ℕ → Error

-- What the parser calls and does not define: the interface Processor, the ParserCloser that an
-- upgrade puts in the parser's place, the connection's read deadline and the close callback. `S` is
-- the state behind them. `on_complete` also says whether a handler has set p.ParserCloser.
pub record Processor (S : Type 0) : Type 0 where
  pub on_method : Bytes → S → S
  pub on_url : Bytes → S → S × Option Error
  pub on_proto : Bytes → S → S × Option Error
  pub on_status : ℤ → Bytes → S → S
  pub on_header : Bytes → Bytes → S → S
  pub on_content_length : ℤ → S → S
  pub on_body : Bytes → S → S × Option Error
  pub on_trailer_header : Bytes → Bytes → S → S
  pub on_complete : S → S × Bool
  pub clean : S → S
  pub close : Option Error → S → S
  pub on_close : Option Error → S → S
  pub upgraded_parse : Bytes → S → S × Option Error
  pub set_read_deadline : S → S

-- `bytes_cached` is empty where the code's pointer is nil; a nil `header` or `trailer` map is empty.
-- Of a trailer the keys still expected are kept: the code's map holds no values.
pub record Parser (S : Type 0) : Type 0 where
  pub bytes_cached : Bytes
  pub parser_closer : Bool
  pub read_limit : ℕ
  pub world : S
  pub proto : Bytes
  pub status_code : ℤ
  pub status : Bytes
  pub header_key : Bytes
  pub header_value : Bytes
  pub header : Header
  pub trailer : List Bytes
  pub content_length : ℤ
  pub chunk_size : ℤ
  pub state : State
  pub chunked : Bool
  pub is_client : Bool
  pub header_exists : Bool
  pub initial_read_deadline_pending : Bool

abbrev pub is_close : State → Bool
is_close close = true
is_close _ = false

-- Where `start` is left after a byte: where it was, at the byte, or behind it.
pub data Mark : Type 0 where
  keep at after : Mark

-- One round of the switch: go on with the next byte, skip the body bytes data[start:start+n] and go
-- on behind them, leave the loop (`goto Exit`), or return an error.
pub data Outcome (S : Type 0) : Type 0 where
  next : Parser S → Mark → Outcome S
  skip : Parser S → ℕ → Outcome S
  exit : Outcome S
  fail : Parser S → Error → Outcome S

-- The bytes data[start:i] after a byte `c`.
abbrev pub token : Mark → Bytes → ℕ → Bytes
token keep tok c = tok ++ c ∷ []
token at tok c = c ∷ []
token after tok c = []

-- `if x == "" { x = s }`
abbrev pub or_set : Bytes → Bytes → Bytes
or_set x s = if is_nil x then s else x

module _ {S : Type 0} where
  unfoldable pub next_state : Parser S → State → Parser S
  next_state p st = if is_close p.state then p else record p { state = st }

  -- `p.nextState(st)`, `start` moved by the mark, `continue`.
  abbrev pub go : Parser S → State → Mark → Outcome S
  go p st m = next (next_state p st) m

  -- The parser with what a callback left behind.
  abbrev pub with_world : Parser S → S → Parser S
  with_world p s = record p { world = s }

  -- `if err := callback; err != nil { return err }`, and then the rest.
  abbrev pub checked : Parser S → S × Option Error → (Parser S → Outcome S) → Outcome S
  checked p (s, none) rest = rest (with_world p s)
  checked p (s, some e) rest = fail (with_world p s) e

-- NewParser
unfoldable pub new_parser : {S : Type 0} → S → ℕ → Bool → Parser S
new_parser s limit client = record {
  bytes_cached = [];
  parser_closer = false;
  read_limit = limit;
  world = s;
  proto = [];
  status_code = ℤ.pos 0;
  status = [];
  header_key = [];
  header_value = [];
  header = [];
  trailer = [];
  content_length = ℤ.pos 0;
  chunk_size = ℤ.pos 0;
  state = if client then client_proto_before else method_before;
  chunked = false;
  is_client = client;
  header_exists = false;
  initial_read_deadline_pending = false;
}
