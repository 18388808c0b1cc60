-- ===== src/Http/Processor/Client.antt =====
-- nbhttp/processor.go: ClientProcessor, and EmptyProcessor.
use nbio.Base.{
  ℕ, Bool, true, false, List, [], ◌∷◌, ◌++◌, Option, none, some, Bytes, ℤ, pos, negsuc, ◌==◌,
  if◌then◌else◌,
}
use nbio.Go.Header.{add, canonical_header_key}
use nbio.Http.Parser.State.{Error, Processor}
use nbio.Http.Processor.{
  HttpResponse, empty_response, Event, set_read_deadline, handled, executing_response,
  close_with_error, Outside, malformed_version, append_body, release_client_response,
}

-- The calls of `conn` and `handler` are `close_with_error`, `handled` and `executing_response` in
-- `events`; `cleaned` is whether Clean has set both to nil.
pub record ClientProcessor : Type 0 where
  pub response : Option HttpResponse
  pub panicked : Bool
  pub cleaned : Bool
  pub events : List Event

abbrev pub new_client_processor : ClientProcessor
new_client_processor = record { response = none; panicked = false; cleaned = false; events = [] }

abbrev pub emit : List Event → ClientProcessor → ClientProcessor
emit es p = record p { events = p.events ++ es }

abbrev pub panic : ClientProcessor → ClientProcessor
panic p = record p { panicked = true }

abbrev pub with_response : HttpResponse → ClientProcessor → ClientProcessor
with_response r p = record p { response = some r }

-- Fields of p.response are set.
abbrev pub update :
    Option HttpResponse → (HttpResponse → HttpResponse) → ClientProcessor → ClientProcessor
update none f p = panic p
update (some r) f p = with_response (f r) p

abbrev pub or_empty : Option HttpResponse → HttpResponse
or_empty none = empty_response
or_empty (some r) = r

-- StatusCode == http.StatusSwitchingProtocols
abbrev pub switches : ℤ → Bool
switches (pos n) = n == 101
switches (negsuc n) = false

unfoldable pub on_status : ℤ → Bytes → ClientProcessor → ClientProcessor
on_status code status p =
    update p.response (λ r. record r { status_code = code; status = status }) p

unfoldable pub on_header : Bytes → Bytes → ClientProcessor → ClientProcessor
on_header key value p =
    update p.response (λ r. record r { header = add r.header (canonical_header_key key) value }) p

unfoldable pub on_content_length : ℤ → ClientProcessor → ClientProcessor
on_content_length n p = update p.response (λ r. record r { content_length = n }) p

unfoldable pub on_trailer_header : Bytes → Bytes → ClientProcessor → ClientProcessor
on_trailer_header key value p =
    update p.response (λ r. record r { trailer = add r.trailer (canonical_header_key key) value }) p

abbrev pub released : Option HttpResponse → List Event
released none = []
released (some r) = release_client_response r

-- Clean sets the whole struct to emptyClientProcessor.
unfoldable pub clean : ClientProcessor → ClientProcessor
clean p = record (emit (released p.response) p) { response = none; cleaned = true }

-- Close: CloseWithError locks the mutex of a `conn` that may be nil.
unfoldable pub close : Option Error → ClientProcessor → ClientProcessor
unfolding clean
close e p = clean (if p.cleaned then panic p else emit (close_with_error e ∷ []) p)

module _ (o : Outside) where
  abbrev pub versioned : Bytes → Option (ℕ × ℕ) → ClientProcessor → ClientProcessor × Option Error
  versioned proto none p = (p, some malformed_version)
  versioned proto (some (major, minor)) p = (
    with_response
        (record (or_empty p.response) { proto = proto; proto_major = major; proto_minor = minor })
        p,
    none,
  )

  unfoldable pub on_proto : Bytes → ClientProcessor → ClientProcessor × Option Error
  on_proto proto p = versioned proto (o.parse_http_version proto) p

  abbrev pub fill_body :
      Option HttpResponse → Bytes → ClientProcessor → ClientProcessor × Option Error
  fill_body none data' p = (panic p, none)
  fill_body (some r) data' p =
      let (br, e) = append_body o.allocation r.body data' in
      (with_response (record r { body = some br }) p, e)

  unfoldable pub on_body : Bytes → ClientProcessor → ClientProcessor × Option Error
  on_body data' p = fill_body p.response data' p

  -- The handler of an upgrade is called in place, if there is one, any other by Execute, which
  -- releases the response behind it; a response that Execute does not take is released.
  abbrev pub answer : HttpResponse → ClientProcessor → ClientProcessor
  answer r p =
      if switches r.status_code
      then (if p.cleaned then panic p else emit (handled r ∷ release_client_response r) p)
      else if o.execute
      then emit (executing_response r ∷ []) p
      else emit (release_client_response r) p

  abbrev pub complete : Option HttpResponse → ClientProcessor → ClientProcessor
  complete none p = panic p
  complete (some r) p = answer r (record p { response = none })

  unfoldable pub on_complete : ClientProcessor → ClientProcessor × Bool
  on_complete p = (complete p.response p, o.upgrades)

  -- The client's processor, as the parser calls it. OnMethod and OnURL do nothing.
  abbrev pub client_processor : Processor ClientProcessor
  client_processor = record {
    on_method = λ m p. p;
    on_url = λ u p. (p, none);
    on_proto = on_proto;
    on_status = on_status;
    on_header = on_header;
    on_content_length = on_content_length;
    on_body = on_body;
    on_trailer_header = on_trailer_header;
    on_complete = on_complete;
    clean = clean;
    close = close;
    on_close = λ e p. emit (Event.on_close e ∷ []) p;
    upgraded_parse = λ b p. (p, o.upgraded b);
    set_read_deadline = λ p. emit (set_read_deadline ∷ []) p;
  }

-- EmptyProcessor, on any state.
abbrev pub empty_processor : {S : Type 0} → Processor S
empty_processor = record {
  on_method = λ m s. s;
  on_url = λ u s. (s, none);
  on_proto = λ v s. (s, none);
  on_status = λ n t s. s;
  on_header = λ k v s. s;
  on_content_length = λ n s. s;
  on_body = λ b s. (s, none);
  on_trailer_header = λ k v s. s;
  on_complete = λ s. (s, false);
  clean = λ s. s;
  close = λ e s. s;
  on_close = λ e s. s;
  upgraded_parse = λ b s. (s, none);
  set_read_deadline = λ s. s;
}
