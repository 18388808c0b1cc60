-- ===== src/Http/Processor/Serving.antt =====
-- nbhttp/processor.go under nbhttp/parser.go: ServerProcessor and ClientProcessor keep to what the
-- parser asks of a Processor, so that none of them dereferences nil.
use nbio.Base.{
  ℕ, true, false, ◌≡◌, inl, inr, refl, List, Option, none, some, arith, if◌then◌else◌, Bool-cases,
  ◌≢◌,
}
use nbio.Http.Parser.State.{new_parser}
use nbio.Http.Parser.Contract.{Phase, idle, named, busy, gone, broken, Serves}
use nbio.Http.Parser.Contract.Sessions.{Call, calls, calls-Unbroken}
use nbio.Http.Processor.{Url, HttpRequest, HttpResponse, Outside}
use nbio.Http.Processor.Server.{
  ServerProcessor, server_processor, on_method, on_url, on_proto, on_header, on_content_length,
  on_body, on_trailer_header, on_complete, clean, update, locate, located, versioned, fill_body,
  just_authority, new_server_processor,
}
use nbio.Http.Processor.Server
use nbio.Http.Processor.Client
use nbio.Http.Processor.Client.{ClientProcessor, client_processor, new_client_processor}

abbrev pub url_phase : Option Url → Phase
url_phase none = named
url_phase (some u) = busy

abbrev pub request_phase : Option HttpRequest → Phase
request_phase none = idle
request_phase (some r) = url_phase r.url

abbrev pub server_phase : ServerProcessor → Phase
server_phase p = if p.panicked then broken else if p.closed then gone else request_phase p.request

module _ (o : Outside) where
  pub server-Serves : Serves server_phase false true (server_processor o)
  unfolding on_method on_url on_proto on_header on_content_length on_body on_trailer_header
      on_complete clean Server.close
  server-Serves = record {
    on_method = λ side m p e. ground arith;
    on_url = λ u p e. ground arith;
    on_proto = λ v p e. ground arith;
    on_status = λ n t p e. e;
    on_header = λ k v p e. ground arith;
    on_content_length = λ n p e. ground arith;
    on_body = λ b p e. ground arith;
    on_trailer_header = λ k v p e. ground arith;
    on_complete = λ p e. ground arith;
    clean = λ r p e. ground arith;
    upgraded_parse = λ r b p e. refl;
    close = λ e f p u. ground arith;
    set_read_deadline = λ p. refl;
  }

abbrev pub response_phase : Option HttpResponse → Phase
response_phase none = idle
response_phase (some r) = busy

abbrev pub client_phase : ClientProcessor → Phase
client_phase p =
    if p.panicked then broken else if p.cleaned then gone else response_phase p.response

pub client-Serves :
    (o : Outside) → o.upgrades ≡ false → Serves client_phase true false (client_processor o)
unfolding Client.on_proto Client.on_status Client.on_header Client.on_content_length Client.on_body
    Client.on_trailer_header Client.on_complete Client.clean Client.close
client-Serves o plain = record {
  on_method = λ side m p e. absurd cc;
  on_url = λ u p e. absurd (ground arith);
  on_proto = λ v p e. ground arith;
  on_status = λ n t p e. ground arith;
  on_header = λ k v p e. ground arith;
  on_content_length = λ n p e. ground arith;
  on_body = λ b p e. ground arith;
  on_trailer_header = λ k v p e. ground arith;
  on_complete = λ p e. ground arith;
  clean = λ r p e. absurd cc;
  upgraded_parse = λ r b p e. absurd cc;
  close = λ e f p u. ground arith;
  set_read_deadline = λ p. refl;
}

-- Under the parser, on any data in any pieces, with errors and after them, with upgrades, and
-- however it is closed in between, a ServerProcessor never dereferences a nil request or a nil URL.
pub server_never_panics :
    (o : Outside) (limit : ℕ) (cs : List Call)
    → (calls (server_processor o) (new_parser new_server_processor limit false) cs).world.panicked
      ≡ false
server_never_panics o limit cs =
    whole (calls (server_processor o) (new_parser new_server_processor limit false) cs).world (
      (calls-Unbroken server_phase false true (server_processor o) (server-Serves o)
        new_server_processor refl limit cs).1)
  where
    whole : (p : ServerProcessor) → server_phase p ≢ broken → p.panicked ≡ false
    whole p u = elim (Bool-cases p.panicked) [ inl e ↦ absurd (u (rw e refl)) | inr e ↦ e ]

-- Under the parser, on any data in any pieces, with errors and after them, and however it is closed
-- in between, a ClientProcessor never dereferences a nil response or connection, and calls no nil handler in place. No handler
-- upgrades the connection.
pub client_never_panics :
    (o : Outside)
    → o.upgrades ≡ false
    → (limit : ℕ) (cs : List Call)
    → (calls (client_processor o) (new_parser new_client_processor limit true) cs).world.panicked
      ≡ false
client_never_panics o plain limit cs =
    whole (calls (client_processor o) (new_parser new_client_processor limit true) cs).world (
      (calls-Unbroken client_phase true false (client_processor o) (client-Serves o plain)
        new_client_processor refl limit cs).1)
  where
    whole : (p : ClientProcessor) → client_phase p ≢ broken → p.panicked ≡ false
    whole p u = elim (Bool-cases p.panicked) [ inl e ↦ absurd (u (rw e refl)) | inr e ↦ e ]
