-- ===== src/Http/Processor/Closing.antt =====
-- nbhttp/processor.go: when a request asks for the connection to be closed.
use nbio.Base.{
  ℕ, Bool, false, not, ◌&&◌, ◌||◌, ◌≡◌, refl, List, [], ◌∷◌, Bytes, codes, equal, ltb, ◌==◌, arith,
}
use nbio.Go.Text.{to_lower, trim_blanks}
use nbio.Http.Processor.Server.{connection_values, wants_close}

-- One of the values is `word`, without its blanks and in lower case.
unfoldable pub says : Bytes → List Bytes → Bool
says word [] = false
says word (v ∷ vs) = equal (to_lower (trim_blanks v)) word || says word vs

-- Before HTTP/1.0 always; in HTTP/1.0 unless "keep-alive" is said; and whenever "close" is said.
unfoldable pub asks_close : ℕ → ℕ → List Bytes → Bool
asks_close major minor vs =
    ltb major 1
    || says (codes "close") vs
    || ((major == 1) && (minor == 0) && not (says (codes "keep-alive") vs))

close-says : (vs : List Bytes) (k : Bool) → (connection_values vs k).0 ≡ says (codes "close") vs
unfolding connection_values says
close-says [] k = refl
close-says (v ∷ vs) k =
    ground (arith, close-says vs (k || equal (to_lower (trim_blanks v)) (codes "keep-alive")))

keep-says :
    (vs : List Bytes) (k : Bool)
    → says (codes "close") vs ≡ false
    → (connection_values vs k).1 ≡ (k || says (codes "keep-alive") vs)
unfolding connection_values says
keep-says [] k e = ground arith
keep-says (v ∷ vs) k e =
    let word = to_lower (trim_blanks v) in
    ground (arith, keep-says vs (k || equal word (codes "keep-alive")) (ground arith))

-- request.Close is set before HTTP/1.0, in HTTP/1.0 if no Connection header says keep-alive, and in
-- any version if one says close; what a header says has no regard to case and to blanks around it.
pub wants_close-asks_close :
    (major minor : ℕ) (vs : List Bytes) → wants_close major minor vs ≡ asks_close major minor vs
unfolding wants_close asks_close
wants_close-asks_close major minor vs = ground (arith, close-says vs false, keep-says vs false)
