-- ===== src/Websocket/SendQueue/Tests.antt =====
-- The send queue of nbhttp/websocket/conn.go at concrete steps.
use nbio.Base.{◌≢◌, refl, List, Option, none, Bytes, [], ◌∷◌, inr, arith}
use nbio.Websocket.SendQueue.{
  Sender, Reach, start, next, write_head, write_behind, conn_write, take_next,
}
use nbio.Websocket.SendQueue.Ordered.{InTurn, Reach-InTurn}

head_there : ◌≢◌ {A = List (Option Bytes)} (none ∷ []) []
head_there = cc

-- Two frames are taken, and the goroutine has sent the first.
abbrev two_frames : (s : Sender) × Reach 2 s
two_frames = (
  _,
  next
      (next
        (next (next start (write_head (1 ∷ []) refl refl))
          (write_behind (2 ∷ []) refl head_there (inr (omega arith))))
        (conn_write 0 (1 ∷ []) [] [] refl))
      (take_next 1 (2 ∷ []) [] [] refl refl (omega arith) refl),
)

Reach-InTurn_example : InTurn two_frames.0
Reach-InTurn_example = Reach-InTurn 2 two_frames.1
