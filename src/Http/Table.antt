-- ===== src/Http/Table.antt =====
-- nbhttp/table.go: the byte classes of the HTTP parser. The code fills tables of 256 entries in
-- `init`; here each table is the test that says which entries are set.
use nbio.Base.{
  ℕ, Bool, true, false, ◌&&◌, ◌||◌, List, [], ◌∷◌, ◌≡◌, refl, ◌==◌, within, Bytes, codes, equal,
  all_below, all_below_sound, ◌<◌, if◌then◌else◌, ◌-◌, not,
}
use nbio.Go.Text.{is_upper, is_lower, to_upper}
use nbio.Go.Header.{is_header_byte}

abbrev member : Bytes → List Bytes → Bool
member s [] = false
member s (m ∷ ms) = equal s m || member s ms

unfoldable pub valid_methods : List Bytes
valid_methods =
    codes "OPTIONS"
    ∷ codes "GET"
    ∷ codes "HEAD"
    ∷ codes "POST"
    ∷ codes "PUT"
    ∷ codes "DELETE"
    ∷ codes "TRACE"
    ∷ codes "CONNECT"
    ∷ codes "PATCH"
    ∷ codes "PRI"
    ∷ []

unfoldable pub is_token : ℕ → Bool
is_token c =
    c == b'!'
    || within b'#' b'\'' c
    || c == b'*'
    || c == b'+'
    || c == b'-'
    || c == b'.'
    || within b'0' b'9' c
    || is_upper c
    || within b'^' b'z' c
    || c == b'|'
    || c == b'~'

unfoldable pub is_alpha : ℕ → Bool
is_alpha c = is_upper c || is_lower c

unfoldable pub is_num : ℕ → Bool
is_num = within b'0' b'9'

unfoldable pub is_hex : ℕ → Bool
is_hex c = within b'0' b'9' c || within b'A' b'F' c || within b'a' b'f' c

abbrev occurs : ℕ → Bytes → Bool
occurs c [] = false
occurs c (d ∷ ds) = c == d || occurs c ds

abbrev occurs_in : ℕ → List Bytes → Bool
occurs_in c [] = false
occurs_in c (m ∷ ms) = occurs c m || occurs_in c ms

-- The letters of the methods, in either case.
unfoldable pub is_valid_method_char : ℕ → Bool
unfolding valid_methods
is_valid_method_char c = occurs_in c valid_methods || is_lower c && occurs_in (c - 32) valid_methods

unfoldable pub is_valid_method : Bytes → Bool
unfolding valid_methods equal to_upper
is_valid_method m = member (to_upper m) valid_methods

abbrev pub iff : Bool → Bool → Bool
iff a b = if a then b else not b

token_table : all_below 256 (λ c. iff (is_token c) (is_header_byte c)) ≡ true
unfolding all_below is_token is_header_byte
token_table = refl

-- A byte that the parser takes into a header's name is one that http.CanonicalHeaderKey accepts,
-- and the other way round.
pub is_token-is_header_byte : (c : ℕ) → c < 256 → iff (is_token c) (is_header_byte c) ≡ true
is_token-is_header_byte c h = all_below_sound 256 _ c token_table h
