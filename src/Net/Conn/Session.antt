-- ===== src/Net/Conn/Session.antt =====
-- conn_unix.go: Write, Writev and writing events in any order, from any answers of the kernel.
use nbio.Base.{
  ◌≡◌, ◌⊎◌, inl, inr, refl, sym, ap, ◌∙◌, true, false, List, [], ◌++◌, Bytes, length, take, arith,
  Bool-cases, append-nil, ℤ, pos, negsuc, take_whole, is_nil, is_nil-eq, none, some,
}
use nbio.Net.Conn.{
  Kernel, Error, Conn, Limits, is_stream, emit, mod_write_event, mod_write, close_without_lock,
}
use nbio.Net.Conn.Write.{Returned, is_fatal, settle}
use nbio.Net.Conn.Sound.{Bounded, pending, stream, Sound, Armed}
use nbio.Net.Conn.Writing.{Wrote}
use nbio.Net.Conn.Vectored.{accepted, Wrotev}
use nbio.Net.Conn.Ending.{AllThere}

-- As many bytes as Write returns.
abbrev pub taken_by : Bytes → Returned → Bytes
taken_by b (pos n, none) = take n b
taken_by b _ = []

module _ {K : Type 0} (o : Kernel K) (l : Limits) where
  -- An open stream that is sound and armed, with its files all there, and that has sent or queued `total`.
  pub record Alive (total : Bytes) (c : Conn K) : Type 0 where
    pub sound : Sound l c
    pub armed : Armed c
    pub stream_typ : is_stream c.typ ≡ true
    pub there : AllThere o c.write_list
    pub same : stream o c ≡ total

  -- A closed connection, that sent the first part of `total`.
  pub record Dead (total : Bytes) (c : Conn K) : Type 0 where
    pub closed : c.closed ≡ true
    pub no_list : c.write_list ≡ []
    pub rest : Bytes
    pub same : c.sent ++ rest ≡ total

  abbrev pub InOrder : Bytes → Conn K → Type 0
  InOrder total c = Alive total c ⊎ Dead total c

  mod_write_off :
      (q : Conn K)
      → q.closed ≡ false
      → q.is_w_added ≡ false
      → mod_write q ≡ emit mod_write_event (record q { is_w_added = true })
  unfolding mod_write
  mod_write_off q e f = ground arith

  mod_write_on : (q : Conn K) → q.is_w_added ≡ true → mod_write q ≡ q
  unfolding mod_write
  mod_write_on q e = ground arith

  mod_write-Alive :
      (q : Conn K) (total : Bytes)
      → Sound l q
      → is_stream q.typ ≡ true
      → AllThere o q.write_list
      → stream o q ≡ total
      → Alive total (mod_write q)
  mod_write-Alive q total s k there same = elim (Bool-cases q.is_w_added) [
    | inl on ↦
        rw (mod_write_on q on)
          (record { sound = s; armed = inr on; stream_typ = k; there = there; same = same })
    | inr off ↦ rw (mod_write_off q s.is_open off) (record {
      sound = record {
        is_open = s.is_open;
        all_ready = s.all_ready;
        counted = s.counted;
        limited = s.limited;
      };
      armed = inr refl;
      stream_typ = k;
      there = there;
      same = same;
    })
  ]

  -- The end of Write and of Writev, with no error that closes the connection.
  calm-InOrder :
      (q : Conn K) (r : Returned) (total : Bytes)
      → Sound l q
      → is_stream q.typ ≡ true
      → AllThere o q.write_list
      → stream o q ≡ total
      → is_fatal r.1 ≡ false
      → InOrder total (settle o (q, r)).0
  calm-InOrder q (n, e) total s k there same calm = elim (Bool-cases (is_nil q.write_list)) [
    | inl empty ↦
        rw (calm, empty)
          (inl (record {
            sound = record {
              is_open = s.is_open;
              all_ready = s.all_ready;
              counted = s.counted;
              limited = s.limited;
            };
            armed = inl (is_nil-eq q.write_list empty);
            stream_typ = k;
            there = there;
            same = same;
          }))
    | inr busy ↦ rw (calm, busy) (inl (mod_write-Alive q total s k there same))
  ]

  fatal-InOrder :
      (q : Conn K) (r : Returned) (total rest : Bytes)
      → q.sent ++ rest ≡ total
      → is_fatal r.1 ≡ true
      → InOrder total (settle o (q, r)).0
  unfolding close_without_lock
  fatal-InOrder q (n, e) total rest same fatal =
      rw fatal (inr (record { closed = refl; no_list = refl; rest = rest; same = same }))

module _ {K : Type 0} (o : Kernel K) (bounded : Bounded o) (l : Limits) where
  no_bytes : (b : Bytes) (n : ℤ) (e : Error) → taken_by b (n, some e) ≡ []
  no_bytes b (pos n) e = refl
  no_bytes b (negsuc n) e = refl

  pub Wrote-InOrder :
      (c q : Conn K) (b total : Bytes) (r : Returned)
      → Alive o l total c
      → AllThere o q.write_list
      → Wrote o bounded l c b q r
      → InOrder o l (total ++ taken_by b r) (settle o (q, r)).0
  Wrote-InOrder c q b total (n, none) s there (all, sound, same, kind) =
      let whole : total ++ taken_by b (n, none) ≡ total ++ b =
        rw all (ap (λ t. total ++ t) (take_whole (length b) b (omega arith))) in
      calm-InOrder o l q (n, none) (total ++ taken_by b (n, none)) sound
        (ap is_stream kind ∙ s.stream_typ) there (same ∙ ap (λ t. t ++ b) s.same ∙ sym whole) refl
  Wrote-InOrder c q b total (n, some e) s there (fatal, same, kind) =
      fatal-InOrder o l q (n, some e) (total ++ taken_by b (n, some e)) (pending o c.write_list)
        (ap (λ t. t ++ pending o c.write_list) same
          ∙ s.same
          ∙ sym (append-nil total)
          ∙ ap (λ t. total ++ t) (sym (no_bytes b n e)))
        fatal

  nothing_accepted : (bs : List Bytes) (n : ℤ) (e : Error) → accepted bs (n, some e) ≡ []
  nothing_accepted bs (pos n) e = refl
  nothing_accepted bs (negsuc n) e = refl

  pub Wrotev-InOrder :
      (c q : Conn K) (bs : List Bytes) (total : Bytes) (r : Returned)
      → Alive o l total c
      → AllThere o q.write_list
      → Wrotev o bounded l c bs q r
      → InOrder o l (total ++ accepted bs r) (settle o (q, r)).0
  Wrotev-InOrder c q bs total (n, none) s there w =
      calm-InOrder o l q (n, none) (total ++ accepted bs (n, none)) w.sound
        (ap is_stream w.typ_same ∙ s.stream_typ) there
        (w.same ∙ ap (λ t. t ++ accepted bs (n, none)) s.same) refl
  Wrotev-InOrder c q bs total (n, some e) s there w = elim (Bool-cases (is_fatal (some e))) [
    | inr calm ↦
        calm-InOrder o l q (n, some e) (total ++ accepted bs (n, some e)) w.sound
          (ap is_stream w.typ_same ∙ s.stream_typ) there
          (w.same ∙ ap (λ t. t ++ accepted bs (n, some e)) s.same) calm
    | inl fatal ↦
        let unsent : q.sent ≡ c.sent = ground (arith, w.sent_same) in
        fatal-InOrder o l q (n, some e) (total ++ accepted bs (n, some e)) (pending o c.write_list)
          (ap (λ t. t ++ pending o c.write_list) unsent
            ∙ s.same
            ∙ sym (append-nil total)
            ∙ ap (λ t. total ++ t) (sym (nothing_accepted bs n e)))
          fatal
  ]
