-- ===== src/Websocket/SendQueue/Steps.antt =====
-- What each step of the send queue of nbhttp/websocket/conn.go makes of its state.
use nbio.Base.{
  ℕ, suc, ◌≤◌, ◌<◌, ◌≡◌, ◌≢◌, refl, sym, ap, ◌∙◌, true, false, List, [], ◌∷◌, ◌++◌, none, some,
  Bytes, length, append-nil, append_assoc, arith,
}
use nbio.Websocket.SendQueue.{
  Writer, writing, written, Sender, entry, set_nil, all_nil, Step, write_head, write_behind,
  write_full, conn_write, conn_fails, take_next, take_nil, drained, quits, close_and_clean, Reach,
  start, next,
}
use nbio.Websocket.SendQueue.States.{
  append_ne_nil, State, idle, busy, between, stuck, shut_writing, shut_written, shut, nils,
  nils_more, entry-nils, set_nil-nils, length-nils, busy_writer, written_writer, not_written,
  not_writing, no_writer, grow,
}

module _ (s : Sender) where
  pub State-write_head :
      (b : Bytes)
      → s.closed ≡ false
      → s.send_queue ≡ []
      → State s
      → State (record s {
        send_queue = none ∷ [];
        writers = writing 0 b ∷ s.writers;
        accepted = s.accepted ++ b ∷ [];
      })
  State-write_head b up empty (idle w q c a) =
      busy 0 b [] (ap (λ t. writing 0 b ∷ t) w) refl c (ap (λ t. t ++ b ∷ []) a)
  State-write_head b up empty (busy i d rest w q c a) = cc (sym empty ∙ q)
  State-write_head b up empty (between i rest w q c a) = cc (sym empty ∙ q)
  State-write_head b up empty (stuck rest w ne br a) = absurd (ne empty)
  State-write_head b up empty (shut_writing i d rest w c a) = cc
  State-write_head b up empty (shut_written i rest w c a) = cc
  State-write_head b up empty (shut rest w c a) = cc

  pub State-write_behind :
      (b : Bytes)
      → s.closed ≡ false
      → s.send_queue ≢ []
      → State s
      → State
          (record s { send_queue = s.send_queue ++ some b ∷ []; accepted = s.accepted ++ b ∷ [] })
  State-write_behind b up full (idle w q c a) = absurd (full q)
  State-write_behind b up full (busy i d rest w q c a) =
      busy i d (rest ++ b ∷ []) w (ap (λ t. t ++ some b ∷ []) q ∙ nils_more (suc i) rest b) c
        (grow s.accepted s.sent (d ∷ rest) b a)
  State-write_behind b up full (between i rest w q c a) =
      between i (rest ++ b ∷ []) w (ap (λ t. t ++ some b ∷ []) q ∙ nils_more (suc i) rest b) c
        (grow s.accepted s.sent rest b a)
  State-write_behind b up full (stuck rest w ne br a) =
      stuck (rest ++ b ∷ []) w (append_ne_nil s.send_queue (some b)) br
        (grow s.accepted s.sent rest b a)
  State-write_behind b up full (shut_writing i d rest w c a) = cc
  State-write_behind b up full (shut_written i rest w c a) = cc
  State-write_behind b up full (shut rest w c a) = cc

  pub State-conn_write :
      (i : ℕ) (b : Bytes) (xs ys : List Writer)
      → s.writers ≡ xs ++ writing i b ∷ ys
      → State s
      → State (record s { writers = xs ++ written (suc i) ∷ ys; sent = s.sent ++ b ∷ [] })
  State-conn_write i b xs ys e (idle w q c a) = absurd (no_writer s (writing i b) xs ys w e)
  State-conn_write i b xs ys e (busy j d rest w q c a) =
      let (front, back, same, frame) = busy_writer s w e in
      between i rest (rw (front, back)) (q ∙ ap (λ k. nils (suc k) rest) same) c
        (a ∙ (ap (λ t. s.sent ++ t ∷ rest) frame ∙ sym (append_assoc s.sent (b ∷ []) rest)))
  State-conn_write i b xs ys e (between j rest w q c a) =
      absurd (not_writing s (suc j) i b xs ys w e)
  State-conn_write i b xs ys e (stuck rest w ne br a) = absurd (no_writer s (writing i b) xs ys w e)
  State-conn_write i b xs ys e (shut_writing j d rest w c a) =
      let (front, back, same, frame) = busy_writer s w e in
      shut_written (suc i) rest (rw (front, back)) c
        (a ∙ (ap (λ t. s.sent ++ t ∷ rest) frame ∙ sym (append_assoc s.sent (b ∷ []) rest)))
  State-conn_write i b xs ys e (shut_written j rest w c a) = absurd (not_writing s j i b xs ys w e)
  State-conn_write i b xs ys e (shut rest w c a) = absurd (no_writer s (writing i b) xs ys w e)

  pub State-conn_fails :
      (i : ℕ) (b : Bytes) (xs ys : List Writer)
      → s.writers ≡ xs ++ writing i b ∷ ys
      → State s
      → State (record s { writers = xs ++ ys; broken = true })
  State-conn_fails i b xs ys e (idle w q c a) = absurd (no_writer s (writing i b) xs ys w e)
  State-conn_fails i b xs ys e (busy j d rest w q c a) =
      let (front, back, _, _) = busy_writer s w e in
      stuck (d ∷ rest) (rw (front, back)) (λ h. cc (sym q ∙ h)) refl a
  State-conn_fails i b xs ys e (between j rest w q c a) =
      absurd (not_writing s (suc j) i b xs ys w e)
  State-conn_fails i b xs ys e (stuck rest w ne br a) = absurd (no_writer s (writing i b) xs ys w e)
  State-conn_fails i b xs ys e (shut_writing j d rest w c a) =
      let (front, back, _, _) = busy_writer s w e in shut (d ∷ rest) (rw (front, back)) c a
  State-conn_fails i b xs ys e (shut_written j rest w c a) = absurd (not_writing s j i b xs ys w e)
  State-conn_fails i b xs ys e (shut rest w c a) = absurd (no_writer s (writing i b) xs ys w e)

  pub State-take_next :
      (i : ℕ) (b : Bytes) (xs ys : List Writer)
      → s.writers ≡ xs ++ written i ∷ ys
      → s.closed ≡ false
      → i < length s.send_queue
      → entry s.send_queue i ≡ some b
      → State s
      → State (record s { writers = xs ++ writing i b ∷ ys; send_queue = set_nil s.send_queue i })
  State-take_next i b xs ys e up lt at_i (idle w q c a) = absurd (no_writer s (written i) xs ys w e)
  State-take_next i b xs ys e up lt at_i (busy j d rest w q c a) =
      absurd (not_written s j i d xs ys w e)
  State-take_next i b xs ys e up lt at_i (between j [] w q c a) =
      let (front, back, same) = written_writer s w e in
      absurd (omega (arith, ap length q, length-nils (suc j) [], same))
  State-take_next i b xs ys e up lt at_i (between j (d ∷ rest) w q c a) =
      let (front, back, same) = written_writer s w e in
      let found : entry s.send_queue i ≡ some d =
        ap (entry s.send_queue) (sym same)
        ∙ ap (λ t. entry t (suc j)) q
        ∙ entry-nils (suc j) d rest in
      let frame : d ≡ b = cc in
      busy i b rest (rw (front, back))
        (ap (set_nil s.send_queue) (sym same)
          ∙ ap (λ t. set_nil t (suc j)) q
          ∙ set_nil-nils (suc j) d rest
          ∙ ap (λ k. nils (suc k) rest) same)
        c (a ∙ ap (λ t. s.sent ++ t ∷ rest) frame)
  State-take_next i b xs ys e up lt at_i (stuck rest w ne br a) =
      absurd (no_writer s (written i) xs ys w e)
  State-take_next i b xs ys e up lt at_i (shut_writing j d rest w c a) = cc
  State-take_next i b xs ys e up lt at_i (shut_written j rest w c a) = cc
  State-take_next i b xs ys e up lt at_i (shut rest w c a) = cc

  -- No entry that the writer reaches is nil.
  pub no_nil :
      (i : ℕ) (xs ys : List Writer)
      → s.writers ≡ xs ++ written i ∷ ys
      → s.closed ≡ false
      → i < length s.send_queue
      → entry s.send_queue i ≡ none
      → State s
      → ⊥
  no_nil i xs ys e up lt at_i (idle w q c a) = no_writer s (written i) xs ys w e
  no_nil i xs ys e up lt at_i (busy j d rest w q c a) = not_written s j i d xs ys w e
  no_nil i xs ys e up lt at_i (between j [] w q c a) =
      let (front, back, same) = written_writer s w e in
      absurd (omega (arith, ap length q, length-nils (suc j) [], same))
  no_nil i xs ys e up lt at_i (between j (d ∷ rest) w q c a) =
      let (front, back, same) = written_writer s w e in
      let found : entry s.send_queue i ≡ some d =
        ap (entry s.send_queue) (sym same)
        ∙ ap (λ t. entry t (suc j)) q
        ∙ entry-nils (suc j) d rest in
      cc (sym found ∙ at_i)
  no_nil i xs ys e up lt at_i (stuck rest w ne br a) = no_writer s (written i) xs ys w e
  no_nil i xs ys e up lt at_i (shut_writing j d rest w c a) = cc (sym c ∙ up)
  no_nil i xs ys e up lt at_i (shut_written j rest w c a) = cc (sym c ∙ up)
  no_nil i xs ys e up lt at_i (shut rest w c a) = cc (sym c ∙ up)

  pub State-drained :
      (i : ℕ) (xs ys : List Writer)
      → s.writers ≡ xs ++ written i ∷ ys
      → s.closed ≡ false
      → length s.send_queue ≤ i
      → State s
      → State (record s { writers = xs ++ ys; send_queue = [] })
  State-drained i xs ys e up le (idle w q c a) = absurd (no_writer s (written i) xs ys w e)
  State-drained i xs ys e up le (busy j d rest w q c a) = absurd (not_written s j i d xs ys w e)
  State-drained i xs ys e up le (between j [] w q c a) =
      let (front, back, same) = written_writer s w e in
      idle (rw (front, back)) refl c (a ∙ append-nil s.sent)
  State-drained i xs ys e up le (between j (d ∷ rest) w q c a) =
      let (front, back, same) = written_writer s w e in
      absurd (omega (arith, ap length q, length-nils (suc j) (d ∷ rest), same))
  State-drained i xs ys e up le (stuck rest w ne br a) = absurd (no_writer s (written i) xs ys w e)
  State-drained i xs ys e up le (shut_writing j d rest w c a) = cc
  State-drained i xs ys e up le (shut_written j rest w c a) = cc
  State-drained i xs ys e up le (shut rest w c a) = cc

  pub State-quits :
      (i : ℕ) (xs ys : List Writer)
      → s.writers ≡ xs ++ written i ∷ ys
      → s.closed ≡ true
      → State s
      → State (record s { writers = xs ++ ys })
  State-quits i xs ys e down (idle w q c a) = cc
  State-quits i xs ys e down (busy j d rest w q c a) = cc
  State-quits i xs ys e down (between j rest w q c a) = cc
  State-quits i xs ys e down (stuck rest w ne br a) = absurd (no_writer s (written i) xs ys w e)
  State-quits i xs ys e down (shut_writing j d rest w c a) = absurd (not_written s j i d xs ys w e)
  State-quits i xs ys e down (shut_written j rest w c a) =
      let (front, back, same) = written_writer s w e in shut rest (rw (front, back)) c a
  State-quits i xs ys e down (shut rest w c a) = absurd (no_writer s (written i) xs ys w e)

  pub State-close_and_clean :
      s.closed ≡ false
      → State s
      → State (record s { closed = true; send_queue = all_nil s.send_queue })
  State-close_and_clean up (idle w q c a) = shut [] w refl (a ∙ sym (append-nil s.sent))
  State-close_and_clean up (busy j d rest w q c a) = shut_writing j d rest w refl a
  State-close_and_clean up (between j rest w q c a) = shut_written (suc j) rest w refl a
  State-close_and_clean up (stuck rest w ne br a) = shut rest w refl a
  State-close_and_clean up (shut_writing j d rest w c a) = cc
  State-close_and_clean up (shut_written j rest w c a) = cc
  State-close_and_clean up (shut rest w c a) = cc

module _ (size : ℕ) where
  pub Step-State : {s t : Sender} → Step size s t → State s → State t
  Step-State {s} (write_head b up empty) h = State-write_head s b up empty h
  Step-State {s} (write_behind b up full room) h = State-write_behind s b up full h
  Step-State (write_full limit full) h = h
  Step-State {s} (conn_write i b xs ys e) h = State-conn_write s i b xs ys e h
  Step-State {s} (conn_fails i b xs ys e) h = State-conn_fails s i b xs ys e h
  Step-State {s} (take_next i b xs ys e up lt found) h = State-take_next s i b xs ys e up lt found h
  Step-State {s} (take_nil i xs ys e up lt found) h = absurd (no_nil s i xs ys e up lt found h)
  Step-State {s} (drained i xs ys e up le) h = State-drained s i xs ys e up le h
  Step-State {s} (quits i xs ys e down) h = State-quits s i xs ys e down h
  Step-State {s} (close_and_clean up) h = State-close_and_clean s up h

  pub Reach-State : {s : Sender} → Reach size s → State s
  Reach-State start = idle refl refl refl refl
  Reach-State (next r st) = Step-State st (Reach-State r)
