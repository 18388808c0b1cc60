-- ===== src/Websocket/Dial/Wire.antt =====
-- The bytes of a response, read line by line: each field is a name, a colon, spaces and a value.
use nbio.Base.{
  ℕ, zero, suc, ◌<◌, ◌≤◌, Bool, true, not, ◌&&◌, [], ◌∷◌, ◌++◌, Option, none, some, ◌≡◌, refl, ap,
  ◌∙◌, Bytes, ◌==◌, if◌then◌else◌, length, length-append, append_assoc, arith, is_nil,
}
use nbio.Websocket.Upgrade.{crlf}
use nbio.Websocket.Dial.Answering.{Fields, lines}

abbrev behind : ℕ → Option (Bytes × Bytes) → Option (Bytes × Bytes)
behind c none = none
behind c (some (l, rest)) = some (c ∷ l, rest)

abbrev at_break : ℕ → Bytes → Option (Bytes × Bytes) → Option (Bytes × Bytes)
at_break c [] more = none
at_break c (d ∷ ds) more = if c == b'\r' && d == b'\n' then some ([], ds) else behind c more

-- The bytes before the first CRLF, and those behind it.
unfoldable pub cut_line : Bytes → Option (Bytes × Bytes)
cut_line [] = none
cut_line (c ∷ cs) = at_break c cs (cut_line cs)

-- The bytes before the first colon, and those behind it.
unfoldable pub cut_colon : Bytes → Option (Bytes × Bytes)
cut_colon [] = none
cut_colon (c ∷ cs) = let more = cut_colon cs in if c == b':' then some ([], cs) else behind c more

unfoldable pub skip_spaces : Bytes → Bytes
skip_spaces [] = []
skip_spaces (c ∷ cs) = let rest = skip_spaces cs in if c == b' ' then rest else c ∷ cs

abbrev add_field : Option (Bytes × Bytes) → Option Fields → Option Fields
add_field none fs = none
add_field (some (k, v)) none = none
add_field (some (k, v)) (some fs) = some ((k, skip_spaces v) ∷ fs)

abbrev on_line : (Bytes → Option Fields) → Option (Bytes × Bytes) → Option Fields
on_line again none = none
on_line again (some ([], rest)) = some []
on_line again (some (c ∷ l, rest)) = add_field (cut_colon (c ∷ l)) (again rest)

-- The fields up to an empty line.
unfoldable pub read_fields : ℕ → Bytes → Option Fields
unfolding cut_line cut_colon skip_spaces
read_fields zero bs = none
read_fields (suc n) bs = on_line (read_fields n) (cut_line bs)

abbrev fields_behind : Option (Bytes × Bytes) → Option Fields
fields_behind none = none
fields_behind (some (status, rest)) = read_fields (suc (length rest)) rest

-- The fields behind the status line.
unfoldable pub response_fields : Bytes → Option Fields
unfolding read_fields
response_fields bs = fields_behind (cut_line bs)

-- No CR and no LF.
unfoldable pub is_line : Bytes → Bool
is_line [] = true
is_line (c ∷ cs) = not (c == b'\r') && not (c == b'\n') && is_line cs

unfoldable pub has_no_colon : Bytes → Bool
has_no_colon [] = true
has_no_colon (c ∷ cs) = not (c == b':') && has_no_colon cs

-- The name of a field.
abbrev pub is_name : Bytes → Bool
is_name k = not (is_nil k) && has_no_colon k && is_line k

abbrev pub AreLines : Fields → Type 0
AreLines [] = Unit {0}
AreLines ((k, v) ∷ fs) = (is_name k ≡ true) × (is_line v ≡ true) × AreLines fs

unfoldable pub trimmed : Fields → Fields
unfolding skip_spaces
trimmed [] = []
trimmed ((k, v) ∷ fs) = (k, skip_spaces v) ∷ trimmed fs

cut_line-append :
    (l rest : Bytes) → is_line l ≡ true → cut_line (l ++ (crlf ++ rest)) ≡ some (l, rest)
unfolding cut_line is_line
cut_line-append [] rest h = refl
cut_line-append (c ∷ []) rest h = ground arith
cut_line-append (c ∷ d ∷ ds) rest h = ground (arith, cut_line-append (d ∷ ds) rest)

cut_colon-append : (k v : Bytes) → has_no_colon k ≡ true → cut_colon (k ++ b':' ∷ v) ≡ some (k, v)
unfolding cut_colon has_no_colon
cut_colon-append [] v h = refl
cut_colon-append (c ∷ cs) v h = ground (arith, cut_colon-append cs v)

is_line-append : (k v : Bytes) → is_line k ≡ true → is_line v ≡ true → is_line (k ++ v) ≡ true
unfolding is_line
is_line-append [] v h i = i
is_line-append (c ∷ cs) v h i = ground (arith, is_line-append cs v)

read_fields-lines :
    (n : ℕ) (fs : Fields)
    → length fs < n
    → AreLines fs
    → read_fields n (lines fs ++ crlf) ≡ some (trimmed fs)
unfolding read_fields lines trimmed
read_fields-lines zero fs b h = absurd (omega arith)
read_fields-lines (suc n) [] b h = refl
read_fields-lines (suc n) (([], v) ∷ fs) b (name, _, _) = absurd (ground arith)
read_fields-lines (suc n) ((c ∷ cs, v) ∷ fs) b (name, value, more) =
    let k = c ∷ cs in
    let l = k ++ b':' ∷ b' ' ∷ v in
    let same : (k ++ b':' ∷ b' ' ∷ (v ++ (crlf ++ lines fs))) ++ crlf
        ≡ l ++ (crlf ++ (lines fs ++ crlf)) =
      simp append_assoc in
    let front : is_line k ≡ true = ground arith in
    let colon : has_no_colon k ≡ true = ground arith in
    let whole : is_line l ≡ true =
      is_line-append k (b':' ∷ b' ' ∷ v) front (unfold is_line in value) in
    let rest = lines fs ++ crlf in
    ap (λ t. on_line (read_fields n) (cut_line t)) same
    ∙ ap (on_line (read_fields n)) (cut_line-append l rest whole)
    ∙ ap (λ x. add_field x (read_fields n rest)) (cut_colon-append k (b' ' ∷ v) colon)
    ∙ ap (add_field (some (k, b' ' ∷ v))) (read_fields-lines n fs (omega arith) more)

length-lines : (fs : Fields) → length fs ≤ length (lines fs)
unfolding lines
length-lines [] = omega arith
length-lines ((k, v) ∷ fs) = omega (
  arith,
  length-lines fs,
  length-append k (b':' ∷ b' ' ∷ (v ++ (crlf ++ lines fs))),
  length-append v (crlf ++ lines fs),
)

-- What is written as a line and fields is read as those fields.
pub response_fields-lines :
    (status : Bytes) (fs : Fields)
    → is_line status ≡ true
    → AreLines fs
    → response_fields (status ++ (crlf ++ (lines fs ++ crlf))) ≡ some (trimmed fs)
unfolding response_fields
response_fields-lines status fs first h =
    ap fields_behind (cut_line-append status (lines fs ++ crlf) first)
    ∙ read_fields-lines (suc (length (lines fs ++ crlf))) fs
        (omega (arith, length-lines fs, length-append (lines fs) crlf)) h
