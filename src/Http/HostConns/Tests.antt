-- ===== src/Http/HostConns/Tests.antt =====
-- A run of the client's pool, and the theorem at it.
use nbio.Base.{◌+◌, ◌≤◌, false, [], ◌∷◌, length, refl, arith}
use nbio.Base.Times.{times}
use nbio.Http.HostConns.{
  HostConns, Reach, start, later, find_none, create, exceed, undo, release_conn, take_released,
}
use nbio.Http.HostConns.Lending.{lent_once}

-- With room for one connection, a second request waits until the first gives it back.
abbrev handed_on : HostConns
handed_on = record {
  conns = 7 ∷ [];
  conn_num = 1;
  chan = [];
  lent = 7 ∷ [];
  seeking = 0;
  undoing = 0;
  waiting = 0;
  closed = false;
}

handed_reached : Reach 1 handed_on
unfolding times
handed_reached =
    later
      (later
        (later
          (later
            (later (later (later start (find_none refl refl)) (create 7 0 refl (omega arith) refl))
              (find_none refl refl))
            (exceed 0 refl (omega arith)))
          (undo 0 refl))
        (release_conn 7 [] [] refl))
      (take_released 0 7 [] refl refl)

lent_once_example :
    (times 7 handed_on.chan + times 7 handed_on.lent ≤ 1)
    × (length handed_on.conns ≤ 1)
    × (length handed_on.chan + length handed_on.lent ≤ 1)
lent_once_example = lent_once 1 handed_on handed_reached 7
