-- ===== src/Net/Conn/Ending.antt =====
-- conn_unix.go: flush ends, with everything sent, with a socket that is full, or with an error.
use nbio.Base.{
  ℕ, zero, suc, ◌+◌, ◌≤◌, ◌<◌, ◌≡◌, inl, inr, refl, ◌∙◌, Bool, true, false, not, ◌&&◌, List, [],
  ◌∷◌, ◌++◌, Bytes, length, drop, if◌then◌else◌, arith, Bool-cases, length-drop, length-take,
  is_nil, none, some,
}
use nbio.Net.Conn.{
  ToWrite, buffer, file, Call, sys_write, sys_sendfile, Answer, done, interrupted, again, broken,
  Kernel, Conn, Limits, count, payload, seen, system, reset_read, close_without_lock, emit,
  mod_write_event,
}
use nbio.Net.Conn.{Event}
use nbio.Net.Conn.Flush.{
  Flushed, flushed, out_of_fuel, flush_head, after_head, flush_round, flush_loop, flush,
}
use nbio.Net.Conn.Sound.{Bounded, pending, stream, Ready, AllReady, Sound, Armed}
use nbio.Net.Conn.Flushing.{Headed, flush_head-Headed}

-- What the kernel is relied on for: given something to send it sends some of it, or says that it would
-- block, or fails; and it is interrupted only so often.
abbrev pub Progress : {K : Type 0} → (K → ℕ) → K → K × Answer → Type 0
Progress patience k (k', done n) = (0 < n) × (patience k' ≤ patience k)
Progress patience k (k', interrupted) = patience k' < patience k
Progress patience k (k', again) = Unit {0}
Progress patience k (k', broken e) = Unit {0}

abbrev pub Progresses : {K : Type 0} → Kernel K → (K → ℕ) → Type 0
Progresses {K} o patience =
    (call : Call) (k : K) → 0 < length (payload o call) → Progress patience k (o.answer call k)

module _ {K : Type 0} (o : Kernel K) where
  -- No queued file is shorter than what of it is to be sent.
  abbrev pub AllThere : List ToWrite → Type 0
  AllThere [] = Unit {0}
  AllThere (buffer d n ∷ ts) = AllThere ts
  AllThere (file fd n r ∷ ts) = (r ≤ length (drop n (o.file_of fd))) × AllThere ts

  flush_head-AllThere :
      (c : Conn K) (t : ToWrite) (ts : List ToWrite)
      → c.write_list ≡ t ∷ ts
      → AllThere (t ∷ ts)
      → AllThere (flush_head o c t ts).0.write_list
  unfolding flush_head system
  flush_head-AllThere c (buffer d n) ts e h = ground arith
  flush_head-AllThere c (file fd n r) ts e h =
      let k = count (seen (sys_sendfile fd n r) (o.answer (sys_sendfile fd n r) c.kernel).1) in
      ground (arith, length-drop (n + k) (o.file_of fd), length-drop n (o.file_of fd))

  flush_head-Progress :
      (patience : K → ℕ)
      → Progresses o patience
      → (c : Conn K) (t : ToWrite) (ts : List ToWrite) → Ready t
      → AllThere (t ∷ ts)
      → Progress patience c.kernel ((flush_head o c t ts).0.kernel, (flush_head o c t ts).1)
  unfolding flush_head system
  flush_head-Progress patience prog c (buffer d n) ts r h =
      ground (arith, prog (sys_write (drop n d)) c.kernel, length-drop n d)
  flush_head-Progress patience prog c (file fd n r) ts p h =
      ground (arith, prog (sys_sendfile fd n r) c.kernel, length-take r (drop n (o.file_of fd)))

module _ {K : Type 0} (o : Kernel K) (bounded : Bounded o) (patience : K → ℕ)
    (progresses : Progresses o patience) (l : Limits) where
  -- flush ends. With no error: what was sent and what is queued are what they were together, the
  -- connection is open and sound, and it is told when it can go on. With an error: it is closed, and what
  -- was sent is the first part of that.
  abbrev pub Flushes : Conn K → Flushed K → Type 0
  Flushes c out_of_fuel = ⊥
  Flushes c (flushed q none) =
      Sound l q × Armed q × (stream o q ≡ stream o c) × (q.typ ≡ c.typ) × AllThere o q.write_list
  Flushes c (flushed q (some e)) =
      (q.closed ≡ true) × (q.write_list ≡ []) × ((rest : Bytes) × (q.sent ++ rest ≡ stream o c))

  -- What is left to do before flush ends.
  abbrev work : Conn K → ℕ
  work c = length (pending o c.write_list) + patience c.kernel

  Headed-Flushes :
      (c q : Conn K) (a : Answer) (f : Flushed K) → Headed o l c (q, a) → Flushes q f → Flushes c f
  Headed-Flushes c q a (flushed p none) h s = (s.0, s.1, s.2 ∙ h.same, s.3 ∙ h.typ_same, s.4)
  Headed-Flushes c q a (flushed p (some e)) h (closed, gone, (rest, same)) =
      (closed, gone, (rest, same ∙ h.same))
  Headed-Flushes c q a out_of_fuel h s = s

  emit-Flushes :
      (e : Event) (c q : Conn K) → Flushes c (flushed q none) → Flushes c (flushed (emit e q) none)
  emit-Flushes e c q f = (
    record {
      is_open = f.0.is_open;
      all_ready = f.0.all_ready;
      counted = f.0.counted;
      limited = f.0.limited;
    },
    f.1,
    f.2,
    f.3,
    f.4,
  )

  rearm-Flushes :
      (c q : Conn K) (once : Bool)
      → Flushes c (flushed q none)
      → Flushes c (flushed (if once then emit mod_write_event q else q) none)
  rearm-Flushes c q true f = emit-Flushes mod_write_event c q f
  rearm-Flushes c q false f = f

  round-Flushes :
      (fuel : ℕ) (c q : Conn K) (a : Answer)
      → Headed o l c (q, a)
      → Progress patience c.kernel (q.kernel, a)
      → AllThere o q.write_list
      → c.is_w_added ≡ true
      → work c < suc fuel
      → (work q < fuel → q.is_w_added ≡ true → Flushes q (flush_loop o fuel l q))
      → Flushes c (after_head o l (flush_loop o fuel l) (q, a))
  unfolding close_without_lock
  round-Flushes fuel c q (done n) h p there armed small ih =
      Headed-Flushes c q (done n) (flush_loop o fuel l q) h
        (ih (omega (arith, h.shorter, p)) (h.armed_same ∙ armed))
  round-Flushes fuel c q interrupted h p there armed small ih =
      Headed-Flushes c q interrupted (flush_loop o fuel l q) h
        (ih (omega (arith, h.shorter, p)) (h.armed_same ∙ armed))
  round-Flushes fuel c q again h p there armed small ih =
      let ended : Flushes c (flushed q none) =
        (h.sound, inr (h.armed_same ∙ armed), h.same, h.typ_same, there) in
      rearm-Flushes c q l.is_oneshot ended
  round-Flushes fuel c q (broken e) h p there armed small ih =
      (refl, refl, (pending o q.write_list, h.same))

  reset_read-Flushes :
      (c : Conn K) → Sound l c → c.write_list ≡ [] → Flushes c (flushed (reset_read c) none)
  unfolding reset_read
  reset_read-Flushes c s e = elim (Bool-cases (not c.closed && c.is_w_added)) [
    | inl added ↦
        rw (added, reset_read)
          (
            record {
              is_open = s.is_open;
              all_ready = s.all_ready;
              counted = s.counted;
              limited = s.limited;
            },
            inl e,
            refl,
            refl,
            rw e tt,
          )
    | inr not_added ↦ rw (not_added, reset_read) (s, inl e, refl, refl, rw e tt)
  ]

  flush_loop-Flushes :
      (fuel : ℕ) (c : Conn K)
      → work c < fuel
      → Sound l c
      → AllThere o c.write_list
      → Armed c
      → Flushes c (flush_loop o fuel l c)
  unfolding flush_loop
  flush_loop-Flushes zero c small s there armed = absurd (omega arith)
  flush_loop-Flushes (suc fuel) c small s there armed =
      on_list (flush_loop-Flushes fuel) c.write_list refl
    where
      on_list :
          ((q : Conn K)
            → work q < fuel
            → Sound l q
            → AllThere o q.write_list
            → Armed q
            → Flushes q (flush_loop o fuel l q))
          → (ts : List ToWrite) → c.write_list ≡ ts
          → Flushes c (flush_round o l (flush_loop o fuel l) c ts)
      on_list ih [] e = reset_read-Flushes c s e
      on_list ih (t ∷ ts) e =
          let (q, a) = flush_head o c t ts in
          let h = flush_head-Headed o bounded l c t ts e s in
          let ready : AllReady (t ∷ ts) = rw e at s.all_ready in
          let here : AllThere o (t ∷ ts) = rw e at there in
          let there' = flush_head-AllThere o c t ts e here in
          let added : c.is_w_added ≡ true = ground (arith, armed) in
          round-Flushes fuel c q a h (flush_head-Progress o patience progresses c t ts ready.0 here)
            there' added small (λ less on. ih q less h.sound there' (inr on))

  flush_idle :
      (fuel : ℕ) (c : Conn K)
      → c.closed ≡ false
      → is_nil c.write_list ≡ true
      → flush o fuel l c ≡ flushed c none
  unfolding flush
  flush_idle fuel c e f = ground arith

  flush_busy :
      (fuel : ℕ) (c : Conn K)
      → c.closed ≡ false
      → is_nil c.write_list ≡ false
      → flush o fuel l c ≡ flush_loop o fuel l c
  unfolding flush
  flush_busy fuel c e f = ground arith

  -- flush, on a connection that is sound, armed and open, with its files all there, ends within as
  -- many rounds as there are bytes queued, interruptions to come, and one. It ends with no error,
  -- and then the bytes sent and those queued, together, are what they were, and the connection is
  -- sound and armed; or with an error, and then the connection is closed and what was sent is the
  -- first part of that. The kernel takes no more bytes than it is given, takes some if it takes
  -- any, and is interrupted only so often.
  pub flush-Flushes :
      (fuel : ℕ) (c : Conn K)
      → length (pending o c.write_list) + patience c.kernel < fuel
      → Sound l c
      → AllThere o c.write_list
      → Armed c
      → Flushes c (flush o fuel l c)
  flush-Flushes fuel c small s there armed = elim (Bool-cases (is_nil c.write_list)) [
    | inl empty ↦ rw (flush_idle fuel c s.is_open empty) (s, armed, refl, refl, there)
    | inr busy ↦
        rw (flush_busy fuel c s.is_open busy) (flush_loop-Flushes fuel c small s there armed)
  ]
