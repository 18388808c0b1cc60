-- ===== src/Http/Processor.antt =====
-- nbhttp/processor.go: the processors that the parser reports to. A nil dereference is recorded in
-- `panicked`, a call of Close in `closed`, and `events` records what a processor calls, in order;
-- these are no fields of the source.
pub mod Server
pub mod Client
pub mod Serving
pub mod Closing
mod Tests
use nbio.Base.{
  ℕ, Bool, true, false, List, [], ◌∷◌, ◌++◌, Option, none, some, Bytes, ℤ, pos, codes, ◌⊎◌,
}
use nbio.Go.Header.{Header, add}
use nbio.Http.Body.{BodyReader, Allocation, new_body_reader, append, close}
use nbio.Http.Parser.State.{Error, processor, too_long}

-- Of url.URL what the processors read and set, and the rest as bytes.
pub record Url : Type 0 where
  pub scheme : Bytes
  pub host : Bytes
  pub rest : Bytes

-- The fields of http.Request that the processor sets; a nil Trailer is empty.
pub record HttpRequest : Type 0 where
  pub method : Bytes
  pub request_uri : Bytes
  pub url : Option Url
  pub proto : Bytes
  pub proto_major : ℕ
  pub proto_minor : ℕ
  pub header : Header
  pub content_length : ℤ
  pub body : Option BodyReader
  pub trailer : Header
  pub host : Bytes
  pub remote_addr : Bytes
  pub transfer_encoding : List Bytes
  pub close : Bool

-- The fields of http.Response that the client's processor sets.
pub record HttpResponse : Type 0 where
  pub proto : Bytes
  pub proto_major : ℕ
  pub proto_minor : ℕ
  pub status_code : ℤ
  pub status : Bytes
  pub header : Header
  pub content_length : ℤ
  pub body : Option BodyReader
  pub trailer : Header

abbrev pub empty_request : HttpRequest
empty_request = record {
  method = [];
  request_uri = [];
  url = none;
  proto = [];
  proto_major = 0;
  proto_minor = 0;
  header = [];
  content_length = pos 0;
  body = none;
  trailer = [];
  host = [];
  remote_addr = [];
  transfer_encoding = [];
  close = false;
}

abbrev pub empty_response : HttpResponse
empty_response = record {
  proto = [];
  proto_major = 0;
  proto_minor = 0;
  status_code = pos 0;
  status = [];
  header = [];
  content_length = pos 0;
  body = none;
  trailer = [];
}

-- `executing` is parser.Execute of a job that serves the request, or calls the handler of the
-- response; `handled` is the handler called in place.
pub data Event : Type 0 where
  set_write_deadline set_read_deadline : Event
  on_request executing : HttpRequest → Event
  handled executing_response : HttpResponse → Event
  put_body : BodyReader → Event
  put_request put_response : Event
  close_with_error on_close : Option Error → Event

-- What a processor reads of its surroundings: url.ParseRequestURI and http.ParseHTTPVersion, the
-- engine's options, the connection's address, whether Execute takes a job, and whether the handler
-- has put a ParserCloser in the parser's place by then, with what that returns.
pub record Outside : Type 0 where
  pub parse_request_uri : Bytes → ℕ ⊎ Url
  pub parse_http_version : Bytes → Option (ℕ × ℕ)
  pub allocation : Allocation
  pub has_write_timeout : Bool
  pub has_on_request : Bool
  pub retain_http_body : Bool
  pub remote_addr : Bytes
  pub execute : Bool
  pub upgrades : Bool
  pub upgraded : Bytes → Option Error

-- The error that OnProto formats.
abbrev pub malformed_version : Error
malformed_version = processor 0

abbrev pub body_or_new : Option BodyReader → BodyReader
body_or_new none = new_body_reader
body_or_new (some br) = br

-- append on a Body: the Body then, and ErrTooLong or nil.
abbrev pub appended : BodyReader → Option BodyReader → BodyReader × Option Error
appended br none = (br, some too_long)
appended br (some br') = (br', none)

abbrev pub append_body : Allocation → Option BodyReader → Bytes → BodyReader × Option Error
append_body a body data' = appended (body_or_new body) (append a (body_or_new body) data')

abbrev pub release_body : Bool → Option BodyReader → List Event
release_body retain none = []
release_body true (some br) = []
release_body false (some br) = put_body (close br) ∷ []

-- releaseRequest of a request that is not nil.
unfoldable pub release_request : Bool → HttpRequest → List Event
release_request retain r = release_body retain r.body ++ put_request ∷ []

-- releaseClientResponse of a response that is not nil.
unfoldable pub release_client_response : HttpResponse → List Event
release_client_response r = release_body false r.body ++ put_response ∷ []
