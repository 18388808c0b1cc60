-- ===== src/Go/Header.antt =====
-- http.Header: a map from canonical keys to their values, with http.CanonicalHeaderKey. The map is
-- an association list; a nil map reads like an empty one.
use nbio.Base.{
  ℕ, Bool, true, ◌&&◌, ◌||◌, Option, none, some, List, [], ◌∷◌, ◌++◌, ◌≡◌, refl, ◌==◌, within,
  if◌then◌else◌, Bytes, equal, arith,
}
use nbio.Go.Text.{is_upper, is_lower, upper_byte, lower_byte}

-- A byte of an RFC 7230 token.
unfoldable pub is_header_byte : ℕ → Bool
is_header_byte c =
    within b'0' b'9' c
    || is_upper c
    || is_lower c
    || within b'#' b'\'' c
    || c == b'!'
    || c == b'*'
    || c == b'+'
    || c == b'-'
    || c == b'.'
    || within b'^' b'`' c
    || c == b'|'
    || c == b'~'

all_header_bytes : Bytes → Bool
unfolding is_header_byte
all_header_bytes [] = true
all_header_bytes (c ∷ cs) = is_header_byte c && all_header_bytes cs

-- The first letter and each one behind a dash in upper case, all others in lower case.
canonicalize : Bool → Bytes → Bytes
unfolding upper_byte lower_byte
canonicalize upper [] = []
canonicalize upper (c ∷ cs) =
    (if upper then upper_byte c else lower_byte c) ∷ canonicalize (c == b'-') cs

-- http.CanonicalHeaderKey: a key with any other byte is returned as it is.
unfoldable pub canonical_header_key : Bytes → Bytes
unfolding all_header_bytes canonicalize
canonical_header_key s = if all_header_bytes s then canonicalize true s else s

abbrev pub Header : Type 0
Header = List (Bytes × List Bytes)

-- h[key], with whether the key is there.
unfoldable pub values : Header → Bytes → Option (List Bytes)
unfolding equal
values [] k = none
values ((j, vs) ∷ h) k = if equal j k then some vs else values h k

-- h.Add(key, value) at a canonical key.
unfoldable pub add : Header → Bytes → Bytes → Header
unfolding equal
add [] k v = (k, v ∷ []) ∷ []
add ((j, vs) ∷ h) k v = if equal j k then (j, vs ++ v ∷ []) ∷ h else (j, vs) ∷ add h k v

-- h.Set(key, value) at a canonical key.
unfoldable pub set : Header → Bytes → Bytes → Header
unfolding equal
set [] k v = (k, v ∷ []) ∷ []
set ((j, vs) ∷ h) k v = if equal j k then (j, v ∷ []) ∷ h else (j, vs) ∷ set h k v

-- delete(h, key)
unfoldable pub delete : Header → Bytes → Header
unfolding equal
delete [] k = []
delete ((j, vs) ∷ h) k = if equal j k then delete h k else (j, vs) ∷ delete h k

abbrev pub first : Option (List Bytes) → Bytes
first none = []
first (some []) = []
first (some (v ∷ vs)) = v

-- h.Get(key) at a canonical key: the first value, or "".
unfoldable pub get : Header → Bytes → Bytes
unfolding values
get h k = first (values h k)

pub values-delete_self : (h : Header) (k : Bytes) → values (delete h k) k ≡ none
unfolding values delete
values-delete_self [] k = refl
values-delete_self ((j, vs) ∷ h) k = ground (arith, values-delete_self h k)

pub get-delete_self : (h : Header) (k : Bytes) → get (delete h k) k ≡ []
unfolding get
get-delete_self h k = rw (values-delete_self h k, get)
