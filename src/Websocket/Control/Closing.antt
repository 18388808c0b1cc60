-- ===== src/Websocket/Control/Closing.antt =====
-- nbhttp/websocket/conn.go: what a close message is answered with.
use nbio.Base.{
  ℕ, ◌+◌, ◌*◌, ◌/◌, ◌%◌, ◌<◌, ◌≡◌, inl, inr, refl, ap, ◌∙◌, Bool, true, false, not, ◌||◌, Option,
  none, some, List, [], ◌∷◌, ◌++◌, Bytes, IsBytes, ltb, ◌==◌, within, if◌then◌else◌, arith,
  Bool-cases, all_below, all_below_sound,
}
use nbio.Http.Table.{iff}
use nbio.Websocket.Control.{
  CloseErr, invalid_utf8, invalid_close_code, close_error, Action, write_message_call, close_call,
  Session, set_close_error, put_uint16, valid_close_code, err_invalid_utf8_text, proto_error,
  refuse, call_close, handle_close, handle_ws_message, default_close_handler,
}

-- The codes that a close frame may carry, as ranges.
abbrev pub is_allowed : ℕ → Bool
is_allowed n = within 1000 1003 n || within 1007 1011 n || n == 1015 || within 3000 4999 n

code_table : all_below 5000 (λ n. iff (valid_close_code n) (is_allowed n)) ≡ true
unfolding all_below valid_close_code
code_table = refl

same_bool : (x y : Bool) → iff x y ≡ true → x ≡ y
same_bool true true h = refl
same_bool false false h = refl
same_bool true false h = cc
same_bool false true h = cc

-- validCloseCode accepts 1000 to 1003, 1007 to 1011, 1015, and 3000 to 4999, and nothing else.
pub valid_close_code-is_allowed : (n : ℕ) → valid_close_code n ≡ is_allowed n
unfolding valid_close_code
valid_close_code-is_allowed n = elim (Bool-cases (ltb n 5000)) [
  | inl small ↦
      same_bool (valid_close_code n) (is_allowed n)
        (all_below_sound 5000 _ n code_table (ground arith))
  | inr big ↦ ground arith
]

-- The payload of the answer: what came, if a close frame may carry it, and else a protocol error.
abbrev pub answer_to : (Bytes → Bool) → Bytes → Bytes
answer_to check [] = []
answer_to check (a ∷ []) = proto_error []
answer_to check (a ∷ b ∷ reason) =
    if not (is_allowed (a * 256 + b))
    then proto_error []
    else if check reason
    then a ∷ b ∷ reason
    else proto_error err_invalid_utf8_text

set_close_error_actions : (e : CloseErr) (s : Session) → (set_close_error e s).actions ≡ s.actions
unfolding set_close_error
set_close_error_actions e s = kept s.close_err
  where
    kept :
        (x : Option CloseErr)
        → Session.actions (elim x [ none ↦ record s { close_err = some e } | some f ↦ s ])
          ≡ s.actions
    kept none = refl
    kept (some f) = refl

noted_actions :
    (t : Bool) (e : CloseErr) (s : Session)
    → Session.actions (if t then s else set_close_error e s) ≡ s.actions
noted_actions true e s = refl
noted_actions false e s = set_close_error_actions e s

-- The answer of the default handler, and Close.
abbrev answered : Bytes → Session → List Action
answered payload s = s.actions ++ write_message_call 8 payload ∷ close_call ∷ []

refuse_answer :
    (e : CloseErr) (payload : Bytes) (s : Session)
    → (refuse e payload s).actions ≡ answered payload s
refuse_answer e payload s =
    ap (λ t. t ++ write_message_call 8 payload ∷ close_call ∷ []) (set_close_error_actions e s)

put_uint16_read : (a b : ℕ) → a < 256 → b < 256 → put_uint16 (a * 256 + b) ≡ a ∷ b ∷ []
put_uint16_read a b h l =
    let high : ((a * 256 + b) / 256) % 256 ≡ a = omega arith in
    let low : (a * 256 + b) % 256 ≡ b = omega arith in rw (high, low) refl

call_close_answer :
    (check : Bytes → Bool) (a b : ℕ) (reason : Bytes) (s : Session)
    → a < 256
    → b < 256
    → ((a * 256 + b) == 1005) ≡ false
    → (call_close check default_close_handler (a * 256 + b) reason s).actions
      ≡ answered (a ∷ b ∷ reason) s
call_close_answer check a b reason s h l e =
    let n = a * 256 + b in
    let sent = if n == 1005 then [] else put_uint16 n ++ reason in
    let payload : sent ≡ a ∷ b ∷ reason =
      ap (λ t. if t then [] else put_uint16 n ++ reason) e
      ∙ ap (λ t. t ++ reason) (put_uint16_read a b h l) in
    ap (λ t. t ++ write_message_call 8 sent ∷ close_call ∷ [])
      (noted_actions (n == 1000) (close_error n reason) s)
    ∙ ap (λ t. s.actions ++ write_message_call 8 t ∷ close_call ∷ []) payload

handle_close_answer :
    (check : Bytes → Bool) (body : Bytes) (s : Session)
    → IsBytes body
    → (handle_close check default_close_handler body s).actions ≡ answered (answer_to check body) s
handle_close_answer check [] s h =
    ap (λ t. t ++ write_message_call 8 [] ∷ close_call ∷ [])
      (set_close_error_actions (close_error 1005 []) s)
handle_close_answer check (a ∷ []) s h =
    ap (λ t. t ++ write_message_call 8 (proto_error []) ∷ close_call ∷ [])
      (set_close_error_actions (close_error 1002 []) s)
handle_close_answer check (a ∷ b ∷ reason) s h =
    let n = a * 256 + b in
    let valid = valid_close_code-is_allowed n in
    elim (Bool-cases (is_allowed n)) [
      | inr bad ↦ rw (valid, bad) (refuse_answer invalid_close_code (proto_error []) s)
      | inl good ↦ elim (Bool-cases (check reason)) [
        | inr text ↦
            rw (valid, good, text)
              (refuse_answer invalid_utf8 (proto_error err_invalid_utf8_text) s)
        | inl text ↦
            rw (valid, good, text) (call_close_answer check a b reason s h.0 h.1.0 (ground arith))
      ]
    ]

-- A close message is answered by one close message, and then the connection is closed: with the payload that came, if it is
-- empty or has a code that it may carry and a reason in UTF-8, and else with the code 1002. The close handler is that of NewUpgrader,
-- and the payload is of bytes.
pub handle_ws_message-answer_to :
    (check : Bytes → Bool) (body : Bytes) (s : Session)
    → IsBytes body
    → (handle_ws_message check default_close_handler 8 (some body) s).actions
      ≡ s.actions ++ write_message_call 8 (answer_to check body) ∷ close_call ∷ []
unfolding handle_ws_message
handle_ws_message-answer_to check body s h = handle_close_answer check body s h
