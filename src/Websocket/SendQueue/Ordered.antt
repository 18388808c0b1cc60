-- ===== src/Websocket/SendQueue/Ordered.antt =====
-- The send queue of nbhttp/websocket/conn.go sends what it takes, in order.
use nbio.Base.{
  ℕ, ◌≤◌, ◌≡◌, ◌≢◌, ◌⊎◌, inl, inr, sym, ap, ◌∙◌, true, List, [], ◌∷◌, ◌++◌, Bytes, length,
  append-nil, arith,
}
use nbio.Websocket.SendQueue.{Sender, Reach}
use nbio.Websocket.SendQueue.States.{
  State, idle, busy, between, stuck, shut_writing, shut_written, shut,
}
use nbio.Websocket.SendQueue.Steps.{Reach-State}

-- Every frame that was taken is sent or still waits, in order; one goroutine at most writes; and
-- there is one unless all are sent, the connection is closed or a Write has failed.
abbrev pub InTurn : Sender → Type 0
InTurn s =
    ((rest : List Bytes) × (s.accepted ≡ s.sent ++ rest))
    × (length s.writers ≤ 1)
    × ((s.closed ≡ true) ⊎ ((s.broken ≡ true) ⊎ ((s.writers ≢ []) ⊎ (s.accepted ≡ s.sent))))

State-InTurn : {s : Sender} → State s → InTurn s
State-InTurn {s} (idle w q c a) =
    (([], a ∙ sym (append-nil s.sent)), omega (arith, ap length w), inr (inr (inr a)))
State-InTurn (busy i b rest w q c a) =
    ((b ∷ rest, a), omega (arith, ap length w), inr (inr (inl (λ done. cc (sym w ∙ done)))))
State-InTurn (between i rest w q c a) =
    ((rest, a), omega (arith, ap length w), inr (inr (inl (λ done. cc (sym w ∙ done)))))
State-InTurn (stuck rest w ne br a) = ((rest, a), omega (arith, ap length w), inr (inl br))
State-InTurn (shut_writing i b rest w c a) = ((b ∷ rest, a), omega (arith, ap length w), inl c)
State-InTurn (shut_written i rest w c a) = ((rest, a), omega (arith, ap length w), inl c)
State-InTurn (shut rest w c a) = ((rest, a), omega (arith, ap length w), inl c)

-- However callers of WriteMessage and WriteFrame, the goroutines of the send queue and CloseAndClean
-- take turns: what was sent is the first part of the frames taken, in their order and each once; one
-- goroutine at most writes; and there is one unless every frame that was taken is sent, the
-- connection is closed, or a Write has failed.
pub Reach-InTurn : (size : ℕ) {s : Sender} → Reach size s → InTurn s
Reach-InTurn size r = State-InTurn (Reach-State size r)
