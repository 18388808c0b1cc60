-- ===== src/Http/HostConns/Lending.antt =====
-- nbhttp/client.go: no connection serves two requests at a time, and releasing one never blocks.
use nbio.Base.{ℕ, ◌+◌, ◌≤◌, ◌≡◌, List, [], ◌∷◌, length, length-append, arith, refl, ap}
use nbio.Base.Times.{one, times, times-append, times_split, length_split}
use nbio.Http.HostConns.{
  HostConns, Step, refuse, take_free, find_none, create, exceed, undo, take_released, give_up,
  release_conn, close, Reach, start, later,
}

module _ (max : ℕ) where
  -- The counter is what it should be, and each connection is in one place, and there once.
  record Shared (h : HostConns) : Type 0 where
    counted : h.conn_num ≡ length h.conns + h.undoing
    few : length h.conns ≤ max
    whole : length h.chan + length h.lent ≡ length h.conns
    placed : (d : ℕ) → times d h.chan + times d h.lent ≡ times d h.conns
    once : (d : ℕ) → times d h.conns ≤ 1

  one_le : (d e : ℕ) (l : List ℕ) → times e l ≡ 0 → times d l ≤ 1 → one d e + times d l ≤ 1
  one_le d e l h k = ground arith

  Step-Shared : {h k : HostConns} → Step max h k → Shared h → Shared k
  unfolding times
  Step-Shared refuse s = s
  Step-Shared (take_free d ds c e) s = record {
    counted = s.counted;
    few = s.few;
    whole = omega (arith, s.whole, ap length e);
    placed = λ f. omega (arith, s.placed f, ap (times f) e);
    once = s.once;
  }
  Step-Shared (find_none c e) s = record {
    counted = s.counted;
    few = s.few;
    whole = s.whole;
    placed = s.placed;
    once = s.once;
  }
  Step-Shared {h} (create d n e few fresh) s = record {
    counted = omega (arith, s.counted);
    few = omega (arith, s.counted);
    whole = omega (arith, s.whole);
    placed = λ f. omega (arith, s.placed f);
    once = λ f. one_le f d h.conns fresh (s.once f);
  }
  Step-Shared (exceed n e over) s = record {
    counted = omega (arith, s.counted);
    few = s.few;
    whole = s.whole;
    placed = s.placed;
    once = s.once;
  }
  Step-Shared (undo n e) s = record {
    counted = omega (arith, s.counted);
    few = s.few;
    whole = s.whole;
    placed = s.placed;
    once = s.once;
  }
  Step-Shared (take_released n d ds e f) s = record {
    counted = s.counted;
    few = s.few;
    whole = omega (arith, s.whole, ap length f);
    placed = λ g. omega (arith, s.placed g, ap (times g) f);
    once = s.once;
  }
  Step-Shared (give_up n e) s = record {
    counted = s.counted;
    few = s.few;
    whole = s.whole;
    placed = s.placed;
    once = s.once;
  }
  Step-Shared {h} (release_conn d xs ys e) s = record {
    counted = s.counted;
    few = s.few;
    whole = omega (arith, s.whole, length_split h.lent xs ys d e, length-append h.chan (d ∷ []));
    placed = λ f.
        omega (arith, s.placed f, times_split f h.lent xs ys d e, times-append f h.chan (d ∷ []));
    once = s.once;
  }
  Step-Shared close s = record {
    counted = s.counted;
    few = s.few;
    whole = s.whole;
    placed = s.placed;
    once = s.once;
  }

  Reach-Shared : {h : HostConns} → Reach max h → Shared h
  unfolding times
  Reach-Shared start = record {
    counted = refl;
    few = omega arith;
    whole = refl;
    placed = λ d. refl;
    once = λ d. omega arith;
  }
  Reach-Shared (later r st) = Step-Shared st (Reach-Shared r)

  -- However the callers of getConn and of releaseConn take turns: a connection is lent to one request
  -- at most and not free meanwhile; there are maxConnNum connections at most; and as long as one is
  -- lent, the channel has room for it.
  pub lent_once :
      (h : HostConns)
      → Reach max h
      → (d : ℕ)
      → (times d h.chan + times d h.lent ≤ 1)
        × (length h.conns ≤ max)
        × (length h.chan + length h.lent ≤ max)
  lent_once h r d =
      let s = Reach-Shared r in
      (omega (arith, s.placed d, s.once d), s.few, omega (arith, s.whole, s.few))
