-- ===== src/Http/HostConns.antt =====
-- nbhttp/client.go: the connections of a Client to one host, in steps of its callers that are taken
-- in any order. A ClientConn is a number; `lent` has those that a request holds, from getConn to
-- the call of its handler, which releases it. The Client's Close closes the connections, and lets
-- getConn return ErrClientClosed from then on.
pub mod Lending
mod Tests
use nbio.Base.{ℕ, suc, ◌+◌, ◌-◌, ◌≤◌, ◌<◌, ◌≡◌, Bool, true, false, List, [], ◌∷◌, ◌++◌}
use nbio.Base.Times.{times}

-- hostConns. Of the callers of getConn, `seeking` have found no free connection, `undoing` are
-- between the two additions to connNum, and `waiting` are at the second select.
pub record HostConns : Type 0 where
  pub conns : List ℕ
  pub conn_num : ℕ
  pub chan : List ℕ
  pub lent : List ℕ
  pub seeking : ℕ
  pub undoing : ℕ
  pub waiting : ℕ
  pub closed : Bool

-- newHostConns
abbrev pub new_host_conns : HostConns
new_host_conns = record {
  conns = [];
  conn_num = 0;
  chan = [];
  lent = [];
  seeking = 0;
  undoing = 0;
  waiting = 0;
  closed = false;
}

-- `max` is maxConnNum.
module _ (max : ℕ) where
  pub data Step (h : HostConns) : HostConns → Type 0 where
    -- The Client is closed, or its timeout has passed: getConn returns an error.
    refuse : Step h h
    -- 1. a free connection, or none
    take_free :
        (d : ℕ) (ds : List ℕ)
        → h.closed ≡ false
        → h.chan ≡ d ∷ ds
        → Step h (record h { chan = ds; lent = d ∷ h.lent })
    find_none : h.closed ≡ false → h.chan ≡ [] → Step h (record h { seeking = h.seeking + 1 })
    -- 2. a new one, if there are fewer than maxConnNum
    create :
        (d n : ℕ)
        → h.seeking ≡ suc n
        → h.conn_num + 1 ≤ max
        → times d h.conns ≡ 0
        → Step h (record h {
          seeking = n;
          conn_num = h.conn_num + 1;
          conns = d ∷ h.conns;
          lent = d ∷ h.lent;
        })
    exceed :
        (n : ℕ)
        → h.seeking ≡ suc n
        → max < h.conn_num + 1
        → Step h (record h { seeking = n; conn_num = h.conn_num + 1; undoing = h.undoing + 1 })
    undo :
        (n : ℕ)
        → h.undoing ≡ suc n
        → Step h (record h { undoing = n; conn_num = h.conn_num - 1; waiting = h.waiting + 1 })
    -- 3. one that another request gives back, or a timeout
    take_released :
        (n d : ℕ) (ds : List ℕ)
        → h.waiting ≡ suc n
        → h.chan ≡ d ∷ ds
        → Step h (record h { waiting = n; chan = ds; lent = d ∷ h.lent })
    give_up : (n : ℕ) → h.waiting ≡ suc n → Step h (record h { waiting = n })
    -- releaseConn, before the handler of the request is called
    release_conn :
        (d : ℕ) (xs ys : List ℕ)
        → h.lent ≡ xs ++ d ∷ ys
        → Step h (record h { lent = xs ++ ys; chan = h.chan ++ d ∷ [] })
    -- CloseWithError of the Client
    close : Step h (record h { closed = true })

  pub data Reach : HostConns → Type 0 where
    start : Reach new_host_conns
    later : {h k : HostConns} → Reach h → Step h k → Reach k
