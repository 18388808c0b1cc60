-- ===== src/Lmux/Tests.antt =====
-- A run of the listener multiplexer, and the theorem at it.
use nbio.Base.{◌≤◌, ◌≡◌, [], ◌∷◌, refl, arith, false}
use nbio.Base.Times.{times}
use nbio.Lmux.{
  ListenerMux, accepting, adding, to_a, to_b, conn, at, Reach, start, later, accept, add_a,
  add_over, subtract, send_a, send_b, take_a, decrease,
}
use nbio.Lmux.Online.{online}
use nbio.Lmux.Placed.{places, Reach-Dispatched}

-- Two listeners and room for one connection on A: connection 7 of listener 1 goes to A and is
-- decreased, while connection 8 of listener 2 has gone to B.
abbrev both_served : ListenerMux
both_served = record {
  shutdown = false;
  closed = false;
  online_a = 0;
  loops = at 1 accepting ∷ at 2 accepting ∷ [];
  chan_a = [];
  chan_b = conn 2 8 ∷ [];
  open_a = [];
  open_b = [];
  accepted = 8 ∷ 7 ∷ [];
  released = 7 ∷ [];
}

both_reached : Reach 1 (1 ∷ 2 ∷ []) both_served
both_reached =
    later
      (later
        (later
          (later
            (later
              (later
                (later
                  (later (later start (accept 1 7 [] (at 2 accepting ∷ []) refl))
                    (accept 2 8 (at 1 (adding 7) ∷ []) [] refl))
                  (add_a 1 7 [] (at 2 (adding 8) ∷ []) refl (omega arith)))
                (add_over 2 8 (at 1 (to_a 7) ∷ []) [] refl (omega arith)))
              (subtract 2 8 (at 1 (to_a 7) ∷ []) [] refl))
            (send_a 1 7 [] (at 2 (to_b 8) ∷ []) refl))
          (send_b 2 8 (at 1 accepting ∷ []) [] refl))
        (take_a 1 7 [] [] refl refl))
      (decrease 7 [] [] refl)

Reach-Dispatched_example : (online both_served ≤ 1) × (times 7 (8 ∷ 7 ∷ []) ≡ places 7 both_served)
Reach-Dispatched_example = Reach-Dispatched 1 (1 ∷ 2 ∷ []) both_served both_reached 7
