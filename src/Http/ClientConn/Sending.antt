-- ===== src/Http/ClientConn/Sending.antt =====
-- nbhttp/client_conn.go: what Do leaves, on every way through it.
use nbio.Base.{
  ℕ, ◌≡◌, ◌⊎◌, inl, inr, refl, sym, ap, ◌∙◌, Bool, true, false, List, [], ◌∷◌, ◌++◌, none, some,
  arith, append-nil, append_assoc, map, if◌then◌else◌,
}
use nbio.Http.ClientConn.{ResHandler, Event, handled, ClientConn, emit, client_closed}
use nbio.Http.ClientConn.Request.{Request, World, send_on, do_request}
use nbio.Http.ClientConn.Account.{
  called, faults, waiting, called-append, faults-append, Owes, Open, Orderly,
}
use nbio.Http.ClientConn.Ways.{send_on-Open}

Open-Orderly : (total : List ℕ) (c : ClientConn) → Open total c → Orderly total c
Open-Orderly total c (owes, at_s, up) = (owes, at_s, inl up)

map-append_h :
    (rs : List ResHandler) (r : ResHandler)
    → map (λ q. q.h) (rs ++ r ∷ []) ≡ map (λ q. q.h) rs ++ r.h ∷ []
map-append_h [] r = refl
map-append_h (q ∷ rs) r = ap (λ t. q.h ∷ t) (map-append_h rs r)

refused-Orderly :
    (total : List ℕ) (h : ℕ) (c : ClientConn)
    → Owes total c
    → c.handlers ≡ []
    → Orderly (total ++ h ∷ []) (emit (handled h none none (some client_closed) ∷ []) c)
unfolding called faults
refused-Orderly total h c (same, f) idle =
    let all : called c.events ≡ total =
      sym (append-nil (called c.events))
      ∙ ap (λ t. called c.events ++ map (λ r. r.h) t) (sym idle)
      ∙ same in
    let asked : Event = handled h none none (some client_closed) in
    (
      (
        ap (λ t. called (c.events ++ asked ∷ []) ++ map (λ r. r.h) t) idle
            ∙ append-nil (called (c.events ++ asked ∷ []))
            ∙ called-append c.events (asked ∷ [])
            ∙ ap (λ t. t ++ h ∷ []) all,
        omega (arith, faults-append c.events (asked ∷ []), f),
      ),
      inl idle,
      inr idle,
    )

kept-Owes :
    (total : List ℕ) (r : ResHandler) (c : ClientConn)
    → Owes total c
    → Owes (total ++ r.h ∷ []) (record c { handlers = c.handlers ++ r ∷ [] })
kept-Owes total r c (same, f) = (
  ap (λ t. called c.events ++ t) (map-append_h c.handlers r)
      ∙ sym (append_assoc (called c.events) (waiting c) (r.h ∷ []))
      ∙ ap (λ t. t ++ r.h ∷ []) same,
  f,
)

-- Do
pub do_request-Orderly :
    (total : List ℕ) (w : World) (req : Request) (h : ℕ) (c : ClientConn)
    → Orderly total c
    → Orderly (total ++ h ∷ []) (do_request w req h c)
unfolding do_request
do_request-Orderly total w req h c (owes, at_s, state) = by_closed c.closed refl state
  where
    q : ClientConn
    q = record c { handlers = c.handlers ++ record { c = c.conn; t = w.now; h = h } ∷ [] }

    by_closed :
        (b : Bool)
        → c.closed ≡ b
        → (c.closed ≡ false) ⊎ (c.handlers ≡ [])
        → Orderly (total ++ h ∷ []) (
            if b
            then emit (handled h none none (some client_closed) ∷ []) c
            else send_on w req c.conn q)
    by_closed true down (inl up) = absurd cc
    by_closed true down (inr idle) = refused-Orderly total h c owes idle
    by_closed false up state = Open-Orderly (total ++ h ∷ []) (send_on w req c.conn q) (
        send_on-Open w req (total ++ h ∷ []) c.conn q refl
          (kept-Owes total (record { c = c.conn; t = w.now; h = h }) c owes) up)
