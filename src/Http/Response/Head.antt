-- ===== src/Http/Response/Head.antt =====
-- nbhttp/response.go: eoncodeHead, the status line and the headers.
use nbio.Base.{
  ℕ, ◌+◌, ◌-◌, ◌*◌, ◌/◌, ◌%◌, Bool, true, false, not, ◌&&◌, some, List, [], ◌∷◌, ◌++◌, Bytes,
  length, take, drop, is_nil, if◌then◌else◌, equal, codes,
}
use nbio.Go.Header.{Header, values, get, canonical_header_key}
use nbio.Http.Parser.Framing.{content_length_header, trailer_header}
use nbio.Http.Response.{Response, Outside, Time, crlf, held, all_values, format_digits}

-- A byte: arithmetic on it wraps.
abbrev to_byte : ℕ → ℕ
to_byte n = n % 256

abbrev status_line : {C : Type 0} → Response C → Bytes
status_line res =
    let code = res.status_code in
    res.request.proto
    ++ b' '
      ∷ to_byte (b'0' + to_byte (code / 100))
      ∷ to_byte (b'0' + to_byte (code % 100) / 10)
      ∷ to_byte (b'0' + to_byte (code % 10))
      ∷ b' '
      ∷ res.status
    ++ crlf

-- The three letters of a day or month, at index `i` of the names.
abbrev name_at : Bytes → ℕ → Bytes
name_at names i = take 3 (drop (3 * i) names)

abbrev two_digits : ℕ → Bytes
two_digits n = to_byte (b'0' + n / 10) ∷ to_byte (b'0' + n % 10) ∷ []

abbrev date_line : Time → Bytes
date_line t =
    codes "Date: "
    ++ name_at (codes "SunMonTueWedThuFriSat") t.weekday
    ++ codes ", "
    ++ two_digits t.day
    ++ b' ' ∷ name_at (codes "JanFebMarAprMayJunJulAugSepOctNovDec") (t.month - 1)
    ++ b' '
      ∷ to_byte (b'0' + t.year / 1000)
      ∷ to_byte (b'0' + (t.year / 100) % 10)
      ∷ to_byte (b'0' + (t.year / 10) % 10)
      ∷ to_byte (b'0' + t.year % 10)
      ∷ b' '
      ∷ two_digits t.hour
    ++ b':' ∷ two_digits t.minute
    ++ b':' ∷ two_digits t.second
    ++ codes " GMT"
    ++ crlf

abbrev absent : Header → Bytes → Bool
absent h k = is_nil (all_values (values h k))

-- The body that is cached gives its length; strconv.FormatInt writes at most 19 digits.
abbrev length_line : {C : Type 0} → Response C → Bytes
length_line res =
    codes "Content-Length: "
    ++ (if not res.has_body
        then b'0' ∷ []
        else format_digits 19 (length (held res.body_buffer)) 10 [])
    ++ crlf

abbrev own_lines : {C : Type 0} → Response C → Bytes
own_lines res =
    (if res.has_body && absent res.header (codes "Content-Type")
      then codes "Content-Type: text/plain; charset=utf-8" ++ crlf
      else [])
    ++ (if not res.chunked && absent res.header content_length_header then length_line res else [])
    ++ (if res.request.close && absent res.header (codes "Connection")
        then codes "Connection: close" ++ crlf
        else [])

abbrev pub field_line : Bytes → Bytes → Bytes
field_line k v = k ++ codes ": " ++ v ++ crlf

abbrev field_lines : Bytes → List Bytes → Bytes
field_lines k [] = []
field_lines k (v ∷ vs) = field_line k v ++ field_lines k vs

abbrev pub Trailers : Type 0
Trailers = List (Bytes × Bytes)

-- The map res.trailer.
unfoldable pub has_trailer : Trailers → Bytes → Bool
unfolding equal
has_trailer [] k = false
has_trailer ((j, v) ∷ ts) k = if equal j k then true else has_trailer ts k

unfoldable pub set_trailer_value : Trailers → Bytes → Bytes → Trailers
unfolding equal
set_trailer_value [] k v = (k, v) ∷ []
set_trailer_value ((j, u) ∷ ts) k v =
    if equal j k then (j, v) ∷ ts else (j, u) ∷ set_trailer_value ts k v

abbrev announce : Trailers → List Bytes → Trailers
announce ts [] = ts
announce ts (k ∷ ks) = announce (set_trailer_value ts k []) ks

module _ {C : Type 0} where
  -- One round of the loop over the headers: lines, or the value of a trailer.
  abbrev add_field : Header → Bytes → List Bytes → Response C × Bytes → Response C × Bytes
  add_field h k [] x = x
  add_field h k (v ∷ vs) (res, head) =
      let value = get h (canonical_header_key k) in
      if has_trailer res.trailer k
      then (
        record res {
          trailer = set_trailer_value res.trailer k value;
          trailer_size = res.trailer_size + (length k + length value + 4);
        },
        head,
      )
      else (res, head ++ field_lines k (v ∷ vs))

  -- In the order of the list; the source's order is any order of the map.
  abbrev add_fields : Header → Header → Response C × Bytes → Response C × Bytes
  add_fields all [] x = x
  add_fields all ((k, vs) ∷ h) x = add_fields all h (add_field all k vs x)

  abbrev end_head : Response C × Bytes → Response C
  end_head (res, head) = record res { buffer = some (head ++ crlf) }

  -- eoncodeHead, the spelling is the source's
  unfoldable pub eoncode_head : Outside C → Response C → Response C
  unfolding values get canonical_header_key format_digits has_trailer set_trailer_value
  eoncode_head o res =
      let start =
        status_line res
        ++ own_lines res
        ++ (if absent res.header (codes "Date") then date_line (o.now res.net) else []) in
      let named = announce [] (all_values (values res.header trailer_header)) in
      if res.head_encoded
      then res
      else end_head (
          add_fields res.header res.header
            (record res { head_encoded = true; trailer = named }, start))
