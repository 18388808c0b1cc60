-- ===== src/Http/Parser/StartLine.antt =====
-- nbhttp/parser.go: the cases of the switch in Parse for the request line and the status line.
-- `tok` is data[start:i], and `c` is data[i].
use nbio.Base.{ℕ, ◌||◌, Option, none, some, [], ◌==◌, if◌then◌else◌, Bytes, ℤ, pos}
use nbio.Go.Text.{to_upper}
use nbio.Go.Number.{atoi}
use nbio.Http.Table.{is_alpha, is_num, is_valid_method, is_valid_method_char}
use nbio.Http.Parser.State.{
  Parser, Processor, Outcome, next, fail, State, method, path_before, path, proto_before, proto,
  proto_lf, client_proto, status_code_before, status_code, status_before, status, status_lf,
  header_key_before, keep, at, after, go, with_world, checked, or_set, invalid_method,
  invalid_request_uri, invalid_http_status_code, invalid_http_status, bad_status_code, lf_expected,
}

module _ {S : Type 0} (h : Processor S) where
  unfoldable pub step_method_before : Parser S → Bytes → ℕ → Outcome S
  step_method_before p tok c =
      if is_valid_method_char c then go p method at else fail p invalid_method

  unfoldable pub step_method : Parser S → Bytes → ℕ → Outcome S
  step_method p tok c =
      if c == b' '
      then (if is_valid_method (to_upper tok)
          then go (with_world p (h.on_method (to_upper tok) p.world)) path_before after
          else fail p invalid_method)
      else if is_alpha c
      then next p keep
      else fail p invalid_method

  unfoldable pub step_path_before : Parser S → Bytes → ℕ → Outcome S
  step_path_before p tok c =
      if c == b'/' || c == b'*'
      then go p path at
      else if c == b' '
      then next p keep
      else fail p invalid_request_uri

  unfoldable pub step_path : Parser S → Bytes → ℕ → Outcome S
  step_path p tok c =
      if c == b' '
      then checked p (h.on_url tok p.world) (λ q. go q proto_before after)
      else next p keep

  unfoldable pub step_proto_before : Parser S → Bytes → ℕ → Outcome S
  step_proto_before p tok c = if c == b' ' then next p keep else go p proto at

  -- p.proto is cleared on both ways out of OnProto.
  abbrev report_proto : Parser S → Bytes → State → Outcome S
  report_proto p tok st =
      checked (record p { proto = [] }) (h.on_proto (or_set p.proto tok) p.world)
        (λ q. go q st keep)

  unfoldable pub step_proto : Parser S → Bytes → ℕ → Outcome S
  step_proto p tok c =
      if c == b' '
      then next (record p { proto = or_set p.proto tok }) keep
      else if c == b'\r'
      then report_proto p tok proto_lf
      else next p keep

  unfoldable pub step_client_proto_before : Parser S → Bytes → ℕ → Outcome S
  step_client_proto_before p tok c =
      if c == b'H' then go p client_proto at else fail p invalid_method

  unfoldable pub step_client_proto : Parser S → Bytes → ℕ → Outcome S
  step_client_proto p tok c =
      if c == b' ' then report_proto p tok status_code_before else next p keep

  -- A space is refused, and any other byte that is no digit is passed over.
  unfoldable pub step_status_code_before : Parser S → Bytes → ℕ → Outcome S
  step_status_code_before p tok c =
      if c == b' '
      then fail p invalid_http_status_code
      else if is_num c
      then go p status_code at
      else next p keep

  abbrev set_status_code : Parser S → Option ℤ → Outcome S
  set_status_code p none = fail p bad_status_code
  set_status_code p (some n) = go (record p { status_code = n }) status_before keep

  unfoldable pub step_status_code : Parser S → Bytes → ℕ → Outcome S
  step_status_code p tok c =
      if c == b' '
      then set_status_code p (atoi tok)
      else if is_num c
      then next p keep
      else fail p invalid_http_status_code

  -- Like the status code: a space is refused, and what is no letter is passed over.
  unfoldable pub step_status_before : Parser S → Bytes → ℕ → Outcome S
  step_status_before p tok c =
      if c == b' '
      then fail p invalid_http_status
      else if is_alpha c
      then go p status at
      else next p keep

  unfoldable pub step_status : Parser S → Bytes → ℕ → Outcome S
  step_status p tok c =
      if c == b' '
      then next (record p { status = or_set p.status tok }) keep
      else if c == b'\r'
      then go
          (record p {
            world = h.on_status p.status_code (or_set p.status tok) p.world;
            status_code = pos 0;
            status = [];
          })
          status_lf keep
      else next p keep

  unfoldable pub step_status_lf : Parser S → Bytes → ℕ → Outcome S
  step_status_lf p tok c = if c == b'\n' then go p header_key_before keep else fail p lf_expected

  -- `case stateProtoLF`, and the same text for `case stateHeaderValueLF`.
  unfoldable pub step_line_lf : Parser S → Bytes → ℕ → Outcome S
  step_line_lf p tok c = if c == b'\n' then go p header_key_before after else fail p lf_expected
