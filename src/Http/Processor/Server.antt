-- ===== src/Http/Processor/Server.antt =====
-- nbhttp/processor.go: ServerProcessor.
use nbio.Base.{
  ℕ, Bool, true, false, not, ◌&&◌, ◌||◌, List, [], ◌∷◌, ◌++◌, Option, none, some, Bytes, ℤ, codes,
  ◌⊎◌, inl, inr, equal, is_nil, ltb, ◌==◌, if◌then◌else◌,
}
use nbio.Go.Header.{add, get, values, canonical_header_key}
use nbio.Go.Text.{to_lower, trim_blanks, starts_with}
use nbio.Http.Parser.State.{Error, processor, Processor}
use nbio.Http.Processor.{
  Url, HttpRequest, empty_request, Event, set_write_deadline, set_read_deadline, on_request,
  executing, Outside, malformed_version, append_body, body_or_new, release_request,
}

pub record ServerProcessor : Type 0 where
  pub request : Option HttpRequest
  pub panicked : Bool
  pub closed : Bool
  pub events : List Event

abbrev pub new_server_processor : ServerProcessor
new_server_processor = record { request = none; panicked = false; closed = false; events = [] }

abbrev pub emit : List Event → ServerProcessor → ServerProcessor
emit es p = record p { events = p.events ++ es }

abbrev pub panic : ServerProcessor → ServerProcessor
panic p = record p { panicked = true }

abbrev pub with_request : HttpRequest → ServerProcessor → ServerProcessor
with_request r p = record p { request = some r }

-- Fields of p.request are set.
abbrev pub update :
    Option HttpRequest → (HttpRequest → HttpRequest) → ServerProcessor → ServerProcessor
update none f p = panic p
update (some r) f p = with_request (f r) p

abbrev pub or_empty : Option HttpRequest → HttpRequest
or_empty none = empty_request
or_empty (some r) = r

unfoldable pub on_method : Bytes → ServerProcessor → ServerProcessor
on_method m p = with_request (record (or_empty p.request) { method = m }) p

abbrev pub connect_method : Bytes
connect_method = codes "CONNECT"

abbrev pub just_authority : Bytes → Bytes → Bool
just_authority method rawurl = equal method connect_method && not (starts_with b'/' rawurl)

abbrev pub without_scheme : Bool → Url → Url
without_scheme b u = if b then record u { scheme = [] } else u

-- The name of the header that chunks are asked for by.
abbrev pub transfer_encoding_header : Bytes
transfer_encoding_header = codes "Transfer-Encoding"

abbrev pub values_or_nil : Option (List Bytes) → List Bytes
values_or_nil none = []
values_or_nil (some vs) = vs

-- The loop CONNECTION_VALUES: hasClose and keepAlive.
unfoldable pub connection_values : List Bytes → Bool → Bool × Bool
connection_values [] keep_alive = (false, keep_alive)
connection_values (v ∷ vs) keep_alive =
    let word = to_lower (trim_blanks v) in
    let rest = connection_values vs (keep_alive || equal word (codes "keep-alive")) in
    if equal word (codes "close") then (true, keep_alive) else rest

-- request.Close
unfoldable pub wants_close : ℕ → ℕ → List Bytes → Bool
wants_close major minor vs =
    let (has_close, keep_alive) = connection_values vs false in
    if ltb major 1
    then true
    else if (major == 1) && (minor == 0)
    then has_close || not keep_alive
    else has_close

module _ (o : Outside) where
  -- p.request.URL, or the error.
  abbrev pub located :
      HttpRequest → Bool → ℕ ⊎ Url → ServerProcessor → ServerProcessor × Option Error
  located r b (inl e) p = (with_request r p, some (processor e))
  located r b (inr u) p = (with_request (record r { url = some (without_scheme b u) }) p, none)

  abbrev pub locate : Option HttpRequest → Bytes → ServerProcessor → ServerProcessor × Option Error
  locate none rawurl p = (panic p, none)
  locate (some r) rawurl p =
      let just = just_authority r.method rawurl in
      located (record r { request_uri = rawurl }) just
        (o.parse_request_uri (if just then codes "http://" ++ rawurl else rawurl)) p

  unfoldable pub on_url : Bytes → ServerProcessor → ServerProcessor × Option Error
  on_url rawurl p = locate p.request rawurl p

  abbrev pub versioned : Bytes → Option (ℕ × ℕ) → ServerProcessor → ServerProcessor × Option Error
  versioned proto none p = (p, some malformed_version)
  versioned proto (some (major, minor)) p = (
    update p.request (λ r. record r { proto = proto; proto_major = major; proto_minor = minor }) p,
    none,
  )

  unfoldable pub on_proto : Bytes → ServerProcessor → ServerProcessor × Option Error
  on_proto proto p = versioned proto (o.parse_http_version proto) p

  unfoldable pub on_header : Bytes → Bytes → ServerProcessor → ServerProcessor
  on_header key value p = update p.request (λ r. record r { header = add r.header key value }) p

  unfoldable pub on_content_length : ℤ → ServerProcessor → ServerProcessor
  on_content_length n p = update p.request (λ r. record r { content_length = n }) p

  abbrev pub fill_body :
      Option HttpRequest → Bytes → ServerProcessor → ServerProcessor × Option Error
  fill_body none data' p = (panic p, none)
  fill_body (some r) data' p =
      let (br, e) = append_body o.allocation r.body data' in
      (with_request (record r { body = some br }) p, e)

  unfoldable pub on_body : Bytes → ServerProcessor → ServerProcessor × Option Error
  on_body data' p = fill_body p.request data' p

  unfoldable pub on_trailer_header : Bytes → Bytes → ServerProcessor → ServerProcessor
  on_trailer_header key value p =
      update p.request (λ r. record r { trailer = add r.trailer (canonical_header_key key) value })
        p

  -- The URL without a host takes the Host header's.
  abbrev pub with_host : HttpRequest → Url → HttpRequest
  with_host r u =
      let host = get r.header (codes "Host") in
      if is_nil u.host then record r { url = some (record u { host = host }); host = host } else r

  -- The request as the handler is given it.
  unfoldable pub completed : HttpRequest → Url → HttpRequest
  completed r u =
      let q = with_host (record r { remote_addr = o.remote_addr }) u in
      record q {
        transfer_encoding = values_or_nil (values q.header transfer_encoding_header);
        close =
            wants_close q.proto_major q.proto_minor
              (values_or_nil (values q.header (codes "Connection")));
        body = some (body_or_new q.body);
      }

  -- OnRequest, and Execute of ServeHTTP and flushResponse; or the request is released.
  abbrev pub serve_events : HttpRequest → List Event
  serve_events r =
      (if o.has_on_request then on_request r ∷ [] else [])
      ++ (if o.execute then executing r ∷ [] else release_request o.retain_http_body r)

  abbrev pub serve : Option Url → HttpRequest → ServerProcessor → ServerProcessor
  serve none r p = panic p
  serve (some u) r p = emit (serve_events (completed r u)) p

  abbrev pub complete : Option HttpRequest → ServerProcessor → ServerProcessor
  complete none p = p
  complete (some r) p = serve r.url r (
      emit (if o.has_write_timeout then set_write_deadline ∷ [] else [])
        (record p { request = none }))

  unfoldable pub on_complete : ServerProcessor → ServerProcessor × Bool
  on_complete p = (complete p.request p, o.upgrades)

  abbrev pub released : Option HttpRequest → List Event
  released none = []
  released (some r) = release_request o.retain_http_body r

  -- Clean
  unfoldable pub clean : ServerProcessor → ServerProcessor
  clean p = record (emit (released p.request) p) { request = none }

  -- Close
  unfoldable pub close : Option Error → ServerProcessor → ServerProcessor
  unfolding clean
  close e p = record (clean p) { closed = true }

  -- The server's processor, as the parser calls it. OnStatus does nothing.
  abbrev pub server_processor : Processor ServerProcessor
  server_processor = record {
    on_method = on_method;
    on_url = on_url;
    on_proto = on_proto;
    on_status = λ code status p. p;
    on_header = on_header;
    on_content_length = on_content_length;
    on_body = on_body;
    on_trailer_header = on_trailer_header;
    on_complete = on_complete;
    clean = clean;
    close = close;
    on_close = λ e p. emit (Event.on_close e ∷ []) p;
    upgraded_parse = λ b p. (p, o.upgraded b);
    set_read_deadline = λ p. emit (set_read_deadline ∷ []) p;
  }
