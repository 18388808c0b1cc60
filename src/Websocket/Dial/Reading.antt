-- ===== src/Websocket/Dial/Reading.antt =====
-- The bytes that commResponse of nbhttp/websocket/upgrader.go writes, read line by line.
use nbio.Base.{
  Bool, true, false, List, [], ◌∷◌, ◌++◌, some, ◌≡◌, refl, ap, ◌∙◌, Bytes, equal, codes, arith,
  Bool-cases, inl, inr,
}
use nbio.Go.Header.{Header}
use nbio.Websocket.Upgrade.{Outside, protocol_field, accept_key, safe_bytes, comm_response}
use nbio.Websocket.Dial.Answering.{
  Fields, value_fields, extra_fields, protocol_fields, extension_fields, answer_fields,
  comm_response-lines,
}
use nbio.Websocket.Dial.Wire.{
  is_line, is_name, has_no_colon, AreLines, trimmed, response_fields, response_fields-lines,
}

-- The keys of a header are names of fields.
abbrev pub AreNames : Header → Type 0
AreNames [] = Unit {0}
AreNames ((k, vs) ∷ h) = (is_name k ≡ true) × AreNames h

is_line-safe_bytes : (v : Bytes) → is_line (safe_bytes v) ≡ true
unfolding is_line safe_bytes
is_line-safe_bytes [] = refl
is_line-safe_bytes (c ∷ cs) = ground (arith, is_line-safe_bytes cs)

AreLines-append : (fs gs : Fields) → AreLines fs → AreLines gs → AreLines (fs ++ gs)
AreLines-append [] gs h i = i
AreLines-append ((k, v) ∷ fs) gs (name, value, h) i = (name, value, AreLines-append fs gs h i)

value_fields-AreLines :
    (k : Bytes) (vs : List Bytes) → is_name k ≡ true → AreLines (value_fields k vs)
unfolding value_fields
value_fields-AreLines k [] name = tt
value_fields-AreLines k (v ∷ vs) name =
    (name, is_line-safe_bytes v, value_fields-AreLines k vs name)

extra_fields-AreLines : (h : Header) → AreNames h → AreLines (extra_fields h)
unfolding extra_fields
extra_fields-AreLines [] names = tt
extra_fields-AreLines ((k, vs) ∷ h) (name, names) = elim (Bool-cases (equal k protocol_field)) [
  | inl e ↦ rw e (extra_fields-AreLines h names)
  | inr e ↦ rw e (
      AreLines-append (value_fields k vs) (extra_fields h) (value_fields-AreLines k vs name)
        (extra_fields-AreLines h names))
]

protocol_fields-AreLines : (p : Bytes) → is_line p ≡ true → AreLines (protocol_fields p)
unfolding is_line has_no_colon
protocol_fields-AreLines [] h = tt
protocol_fields-AreLines (c ∷ cs) h = (refl, h, tt)

extension_fields-AreLines : (compress : Bool) → AreLines (extension_fields compress)
unfolding is_line has_no_colon
extension_fields-AreLines true = (refl, refl, tt)
extension_fields-AreLines false = tt

module _ (o : Outside) (h : Header) (key subprotocol : Bytes) (compress : Bool)
    (digest : is_line (accept_key o key) ≡ true) (protocol : is_line subprotocol ≡ true)
    (names : AreNames h) where
  answer_fields-AreLines : AreLines (answer_fields o h key subprotocol compress)
  unfolding answer_fields is_line has_no_colon
  answer_fields-AreLines = (
    refl,
    refl,
    (
      refl,
      refl,
      (
        refl,
        digest,
        AreLines-append (protocol_fields subprotocol) _
            (protocol_fields-AreLines subprotocol protocol)
            (AreLines-append (extension_fields compress) (extra_fields h)
              (extension_fields-AreLines compress) (extra_fields-AreLines h names)),
      ),
    ),
  )

  status_line : is_line (codes "HTTP/1.1 101 Switching Protocols") ≡ true
  unfolding is_line
  status_line = refl

  -- The fields of the response are what its bytes are read as, without the spaces before the values.
  pub response_fields-comm_response :
      response_fields (comm_response o h key subprotocol compress)
      ≡ some (trimmed (answer_fields o h key subprotocol compress))
  response_fields-comm_response =
      ap response_fields (comm_response-lines o h key subprotocol compress)
      ∙ response_fields-lines (codes "HTTP/1.1 101 Switching Protocols")
          (answer_fields o h key subprotocol compress) status_line answer_fields-AreLines
