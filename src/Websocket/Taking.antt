-- ===== src/Websocket/Taking.antt =====
-- nbhttp/websocket/conn.go: the rounds of Parse that take a data frame off the cache.
use nbio.Base.{
  ℕ, suc, ◌≤◌, ◌<◌, ◌≡◌, ◌⊎◌, refl, ap, Bool, true, false, not, [], ◌++◌, Option, none, some, Bytes,
  length, is_nil, ltb, ◌==◌, if◌then◌else◌, arith, inl, ◌||◌, inr, Bool-cases, length-append,
  drop-append_length,
}
use nbio.Websocket.Frame.{
  Rules, Frame, NextFrame, frame, next_frame, valid_frame, is_message_too_large, text_message,
  binary_message, is_control,
}
use nbio.Websocket.Head.{sent}
use nbio.Websocket.Conn.{taken, take_body, consume, Handlers, Conn, Finish, ok, round, loop}

abbrev pub IsData : ℕ → Type 0
IsData mt = (mt ≡ text_message) ⊎ (mt ≡ binary_message)

-- A connection between two frames of a message of type `mt`; before its first frame if `send`.
abbrev pub between : {S : Type 0} → Rules → ℕ → Bool → ℕ → Bytes → Bytes → S → Conn S
between r limit send mt m cached s = record {
  rules = r;
  read_limit = limit;
  msg_type = if send then 0 else mt;
  compress = false;
  expecting_fragments = not send;
  message = m;
  bytes_cached = cached;
  world = s;
}

-- A connection with a message handler and no data frame handler.
abbrev pub messages_only : {S : Type 0} → Handlers S → Handlers S
messages_only g = record g { has_message_handler = true; has_data_frame_handler = false }

module _ {S : Type 0} (g : Handlers S) (r : Rules) (limit mt : ℕ) (kind : IsData mt) where
  abbrev pub data_frame : Bool → Bool → Bytes → Bytes → Frame
  data_frame send fin laid piece = record {
    total = length laid;
    opcode = sent send mt;
    body = piece;
    fin = fin;
    compress = false;
  }

  take_part :
      (send : Bool) (m piece laid cached : Bytes) (s : S)
      → take_body
          (messages_only g)
          (between r limit send mt m cached s)
          (data_frame send false laid piece)
        ≡ taken (between r limit false mt (m ++ piece) cached s) none none none
  take_part true m piece laid cached s = elim kind [ inl e ↦ rw e refl | inr e ↦ rw e refl ]
  take_part false m piece laid cached s = elim kind [ inl e ↦ rw e refl | inr e ↦ rw e refl ]

  take_last :
      (send : Bool) (m piece laid cached : Bytes) (s : S)
      → is_nil (m ++ piece) ≡ false
      → take_body
          (messages_only g)
          (between r limit send mt m cached s)
          (data_frame send true laid piece)
        ≡ taken (between r limit true mt [] cached s) (some (m ++ piece)) none none
  take_last true m piece laid cached s full = elim kind [
    | inl e ↦ rw (e, full) refl
    | inr e ↦ rw (e, full) refl
  ]
  take_last false m piece laid cached s full = elim kind [
    | inl e ↦ rw (e, full) refl
    | inr e ↦ rw (e, full) refl
  ]

  consume_laid :
      (send fin next : Bool) (m piece laid rest : Bytes) (s : S) (msg : Option Bytes)
      → 0 < length laid
      → consume
          (messages_only g)
          (data_frame send fin laid piece)
          (taken (between r limit next mt m (laid ++ rest) s) msg none none)
        ≡ taken (between r limit next mt m rest s) msg none none
  consume_laid send fin next m piece laid rest s msg some_bytes =
      let there = length-append laid rest in
      let is_there : (length laid == 0 || ltb (length (laid ++ rest)) (length laid)) ≡ false =
        ground arith in
      rw (is_there, drop-append_length laid rest) refl

  kind_of :
      (send : Bool)
      → (if (if send then 0 else mt) == 0 then sent send mt else (if send then 0 else mt)) ≡ mt
  kind_of true = refl
  kind_of false = elim kind [ inl e ↦ rw e refl | inr e ↦ rw e refl ]

  pub part_round :
      (again : Conn S → Finish S) (send : Bool) (m piece laid rest : Bytes) (s : S)
      → 0 < length laid
      → round
          (messages_only g)
          again
          (between r limit send mt m (laid ++ rest) s)
          (frame (data_frame send false laid piece))
        ≡ again (between r limit false mt (m ++ piece) rest s)
  part_round again send m piece laid rest s some_bytes =
      rw
        (
          take_part send m piece laid (laid ++ rest) s,
          consume_laid send false false (m ++ piece) piece laid rest s none some_bytes,
        )
        refl

  pub last_round :
      (again : Conn S → Finish S) (send : Bool) (m piece laid rest : Bytes) (s : S)
      → 0 < length laid
      → is_nil (m ++ piece) ≡ false
      → round
          (messages_only g)
          again
          (between r limit send mt m (laid ++ rest) s)
          (frame (data_frame send true laid piece))
        ≡ again (between r limit true mt [] rest (g.handle_message mt (m ++ piece) s))
  last_round again send m piece laid rest s some_bytes full =
      rw
        (
          take_last send m piece laid (laid ++ rest) s full,
          consume_laid send true true [] piece laid rest s (some (m ++ piece)) some_bytes,
          kind_of send,
        )
        refl

  pub loop_idle :
      (n : ℕ) (s : S)
      → loop (messages_only g) (suc n) (between r limit true mt [] [] s)
        ≡ ok (between r limit true mt [] [] s)
  unfolding loop next_frame
  loop_idle n s = elim (Bool-cases (g.is_closed s)) [
    | inl shut ↦ rw (shut, loop) refl
    | inr here ↦ rw (here, loop) refl
  ]

  pub loop-round :
      (n : ℕ) (c : Conn S) {f : NextFrame}
      → g.is_closed c.world ≡ false
      → next_frame c.rules (length c.message) c.expecting_fragments c.bytes_cached ≡ f
      → loop (messages_only g) (suc n) c ≡ round (messages_only g) (loop (messages_only g) n) c f
  unfolding loop
  loop-round n c e f = ground (arith, ap (round (messages_only g) (loop (messages_only g) n) c) f)

  pub data_valid :
      (send fin : Bool) → valid_frame r (sent send mt) fin false false false (not send) ≡ none
  unfolding valid_frame
  data_valid true true = elim kind [ inl e ↦ rw e refl | inr e ↦ rw e refl ]
  data_valid true false = elim kind [ inl e ↦ rw e refl | inr e ↦ rw e refl ]
  data_valid false true = refl
  data_valid false false = refl

  pub data_opcode : (send : Bool) → is_control (sent send mt) ≡ false
  data_opcode true = elim kind [ inl e ↦ rw e refl | inr e ↦ rw e refl ]
  data_opcode false = refl

  pub smaller :
      (a b : ℕ) → a ≤ b → is_message_too_large r b ≡ false → is_message_too_large r a ≡ false
  unfolding is_message_too_large
  smaller a b l h = ground arith
