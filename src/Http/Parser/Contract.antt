-- ===== src/Http/Parser/Contract.antt =====
-- nbhttp/parser.go: what the parser owes its Processor: between two messages the Processor holds
-- none, and in a message it is called only while it holds one.
mod Rounds
pub mod Calls
pub mod Sessions
use nbio.Base.{
  ℕ, zero, suc, ◌≡◌, ◌⊎◌, inl, inr, refl, true, false, Bool, Option, none, some, [], ◌∷◌, ◌++◌,
  arith, Bytes, sym, ap, ◌∙◌, drop, take, pos_part, ℤ, if◌then◌else◌,
}
use nbio.Go.Text.{to_upper}
use nbio.Http.Parser.State.{
  Parser, Processor, Outcome, next, skip, exit, fail, token, State, Error, next_state, with_world,
  close, method_before, method, path_before, path, proto_before, proto, proto_lf,
  client_proto_before, client_proto, status_code_before, status_code, status_before, status,
  status_lf, header_key_before, body_content_length, body_chunk_data, is_close, header_key,
  header_value, header_over_lf, or_set, header_value_before, body_trailer_header_value_before,
  body_trailer_header_value, tail_lf,
}
use nbio.Http.Parser.Framing.{Result, parse_transfer_encoding, parse_content_length, parse_trailer}
use nbio.Http.Parser.Framing
use nbio.Http.Parser.Fields.{
  with_trailer, with_length, with_encoding, end_headers, step_header_key_before,
}
use nbio.Http.Parser.Body.{step_body}
use nbio.Http.Parser.Loop.{Finish, ok, err, out_of_fuel, step_in, loop, resume}

-- Where a Processor stands: between messages, in one of which it has the method alone, in one of
-- which it has the start too, gone once it is closed, or broken by a call that it cannot serve.
pub data Phase : Type 0 where
  idle named busy gone broken : Phase

-- What a Processor is to be at a state of the parser.
abbrev pub phase_of : State → Phase
phase_of close = gone
phase_of method_before = idle
phase_of method = idle
phase_of path_before = named
phase_of path = named
phase_of client_proto_before = idle
phase_of client_proto = idle
phase_of _ = busy

-- Between messages, or closed.
abbrev pub at_rest : Phase → Bool
at_rest idle = true
at_rest gone = true
at_rest _ = false

-- The states of the start line that the other side has are never entered.
abbrev pub belongs : Bool → State → Bool
belongs true method_before = false
belongs true method = false
belongs true path_before = false
belongs true path = false
belongs true proto_before = false
belongs true proto = false
belongs true proto_lf = false
belongs false client_proto_before = false
belongs false client_proto = false
belongs false status_code_before = false
belongs false status_code = false
belongs false status_before = false
belongs false status = false
belongs false status_lf = false
belongs _ _ = true

-- OnProto begins a message of a client.
abbrev pub before_proto : Bool → Phase
before_proto true = idle
before_proto false = busy

module _ {S : Type 0} (phase : S → Phase) where
  -- After OnProto.
  abbrev pub Began : Bool → S × Option Error → Type 0
  Began client (s, none) = phase s ≡ busy
  Began client (s, some e) = phase s ≡ before_proto client

  -- After OnURL.
  abbrev pub Located : S × Option Error → Type 0
  Located (s, none) = phase s ≡ busy
  Located (s, some e) = phase s ≡ named

  abbrev pub Unbroken : S → Type 0
  Unbroken s = (phase s ≡ idle) ⊎ (phase s ≡ named) ⊎ (phase s ≡ busy)

  -- A Processor that keeps its phase in order, for a server or a client, as long as it is called in
  -- the phase that it is meant for. Where `replaced` is false, no handler upgrades the connection.
  pub record Serves (client replaced : Bool) (h : Processor S) : Type 0 where
    pub on_method :
        client ≡ false → (m : Bytes) (s : S) → phase s ≡ idle → phase (h.on_method m s) ≡ named
    pub on_url : (u : Bytes) (s : S) → phase s ≡ named → Located (h.on_url u s)
    pub on_proto :
        (v : Bytes) (s : S) → phase s ≡ before_proto client → Began client (h.on_proto v s)
    pub on_status : (n : ℤ) (t : Bytes) (s : S) → phase s ≡ busy → phase (h.on_status n t s) ≡ busy
    pub on_header : (k v : Bytes) (s : S) → phase s ≡ busy → phase (h.on_header k v s) ≡ busy
    pub on_content_length :
        (n : ℤ) (s : S) → phase s ≡ busy → phase (h.on_content_length n s) ≡ busy
    pub on_body : (b : Bytes) (s : S) → phase s ≡ busy → phase (h.on_body b s).0 ≡ busy
    pub on_trailer_header :
        (k v : Bytes) (s : S) → phase s ≡ busy → phase (h.on_trailer_header k v s) ≡ busy
    pub on_complete :
        (s : S)
        → phase s ≡ busy
        → (phase (h.on_complete s).0 ≡ idle) × (((h.on_complete s).1 ≡ false) ⊎ (replaced ≡ true))
    pub clean : replaced ≡ true → (s : S) → at_rest (phase s) ≡ true → phase (h.clean s) ≡ phase s
    pub upgraded_parse :
        replaced ≡ true
        → (b : Bytes) (s : S) → at_rest (phase s) ≡ true
        → phase (h.upgraded_parse b s).0 ≡ phase s
    pub close :
        (e f : Option Error) (s : S) → Unbroken s → phase (h.on_close e (h.close f s)) ≡ gone
    pub set_read_deadline : (s : S) → phase (h.set_read_deadline s) ≡ phase s

  -- The parser and its Processor agree.
  pub record Agrees (client replaced : Bool) (p : Parser S) : Type 0 where
    pub in_phase : phase p.world ≡ phase_of p.state
    pub side : p.is_client ≡ client
    pub own_state : belongs client p.state ≡ true
    pub between :
        (p.parser_closer ≡ false) ⊎ ((replaced ≡ true) × (at_rest (phase_of p.state) ≡ true))

  abbrev pub AgreesOutcome : Bool → Bool → Outcome S → Type 0
  AgreesOutcome client replaced (next q m) = Agrees client replaced q
  AgreesOutcome client replaced (skip q n) = Agrees client replaced q
  AgreesOutcome client replaced exit = Unit {0}
  AgreesOutcome client replaced (fail q e) = Agrees client replaced q
