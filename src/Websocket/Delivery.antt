-- ===== src/Websocket/Delivery.antt =====
-- nbhttp/websocket/conn.go: the frames that WriteMessage cuts a message into, read by Parse.
use nbio.Base.{
  ℕ, zero, suc, ◌+◌, ◌^◌, ◌≤◌, ◌<◌, min, ◌≡◌, refl, sym, ap, ◌∙◌, Bool, true, false, not, [], ◌∷◌,
  ◌++◌, Option, none, some, Bytes, IsBytes, length, take, drop, is_nil, ◌==◌, arith, inl, inr,
  Bool-cases, append_assoc, length-append, length-take, length-drop, take-append-drop, drop_whole,
  take_whole, take-IsBytes, drop-IsBytes,
}
use nbio.Websocket.Frame.{Rules, frame, next_frame, put_frame, is_message_too_large}
use nbio.Websocket.RoundTrip.{next_frame-put_frame}
use nbio.Websocket.Conn.{
  put_before, Handlers, Conn, ok, loop, parse, Writer, write_frames, write_message, Written, wrote,
}
use nbio.Websocket.Taking.{IsData, between, messages_only}
use nbio.Websocket.Taking

module _ {S : Type 0} (g : Handlers S) (r : Rules) (limit mt : ℕ) (kind : IsData mt)
    (w : Writer) where
  abbrev laid_at : ℕ → Bool → Bool → Bytes → Bytes
  laid_at left send fin piece = put_frame w.is_client (w.key_at left) mt send fin piece false

  laid_some :
      (left : ℕ) (send fin : Bool) (piece : Bytes) → 0 < length (laid_at left send fin piece)
  unfolding put_frame
  laid_some left send fin piece = ground arith

  frame_read :
      (send fin : Bool) (left : ℕ) (m piece rest : Bytes)
      → IsBytes piece
      → length piece + 14 < 2 ^ 63
      → is_message_too_large r (length m + length piece) ≡ false
      → next_frame r (length m) (not send) (laid_at left send fin piece ++ rest)
        ≡ frame (Taking.data_frame g r limit mt kind send fin (laid_at left send fin piece) piece)
  frame_read send fin left m piece rest range bound fits =
      next_frame-put_frame r (length m) (not send) w.is_client (w.key_at left) mt send fin false
        piece rest (ground arith) range bound fits
        (λ e. absurd (ground (arith, Taking.data_opcode g r limit mt kind send)))
        (Taking.data_valid g r limit mt kind send fin)

  write_frames_more :
      (k : ℕ) (send : Bool) (d : Bytes)
      → 0 < length d
      → let n = min (length d) w.max_frame in
        write_frames (suc k) w mt send false d
        ≡ put_before
            (laid_at (length d) send (n == length d) (take n d))
            (write_frames k w mt false false (drop n d))
  unfolding write_frames
  write_frames_more k send [] h = absurd (omega arith)
  write_frames_more k send (b ∷ bs) h = refl

  abbrev pub idle : S → Conn S
  idle s = between r limit true mt [] [] s

  -- The frames that are left of a message, of which `m` was received before.
  abbrev Ends : Bool → Bytes → Bytes → S → Option Bytes → Type 0
  Ends send m d s none = ⊥
  Ends send m d s (some wire) =
      (n : ℕ)
      → length wire < n
      → loop (messages_only g) n (between r limit send mt m wire s)
        ≡ ok (idle (g.handle_message mt (m ++ d) s))

  end_frame :
      (send : Bool) (left : ℕ) (m d : Bytes) (s : S)
      → g.is_closed s ≡ false
      → 0 < length d
      → IsBytes d
      → length m + length d + 14 < 2 ^ 63
      → is_message_too_large r (length m + length d) ≡ false
      → Ends send m d s (put_before (laid_at left send true d) (some []))
  end_frame send left m d s here full range bound fits zero small = absurd (omega arith)
  end_frame send left m d s here full range bound fits (suc zero) small =
      absurd
        (omega (arith, laid_some left send true d, length-append (laid_at left send true d) []))
  end_frame send left m d s here full range bound fits (suc (suc n)) small =
      Taking.loop-round g r limit mt kind (suc n)
        (between r limit send mt m (laid_at left send true d ++ []) s) here
        (frame_read send true left m d [] range (omega arith) fits)
      ∙ Taking.last_round g r limit mt kind (loop (messages_only g) (suc n)) send m d
          (laid_at left send true d) [] s (laid_some left send true d) (nonempty m d full)
      ∙ Taking.loop_idle g r limit mt kind n (g.handle_message mt (m ++ d) s)
    where
      nonempty : (m d : Bytes) → 0 < length d → is_nil (m ++ d) ≡ false
      nonempty [] [] h = absurd (omega arith)
      nonempty [] (x ∷ d) h = refl
      nonempty (x ∷ m) d h = refl

  part_loop :
      (send : Bool) (left : ℕ) (m piece d wire : Bytes) (s : S)
      → g.is_closed s ≡ false
      → IsBytes piece
      → length m + length piece + 14 < 2 ^ 63
      → is_message_too_large r (length m + length piece) ≡ false
      → Ends false (m ++ piece) d s (some wire)
      → Ends send m (piece ++ d) s (some (laid_at left send false piece ++ wire))
  part_loop send left m piece d wire s here range bound fits i zero small = absurd (omega arith)
  part_loop send left m piece d wire s here range bound fits i (suc n) small =
      Taking.loop-round g r limit mt kind n
        (between r limit send mt m (laid_at left send false piece ++ wire) s) here
        (frame_read send false left m piece wire range (omega arith) fits)
      ∙ Taking.part_round g r limit mt kind (loop (messages_only g) n) send m piece
          (laid_at left send false piece) wire s (laid_some left send false piece)
      ∙ i n (
          omega (
            arith,
            laid_some left send false piece,
            length-append (laid_at left send false piece) wire,
          ))
      ∙ ap (λ t. ok (idle (g.handle_message mt t s))) (append_assoc m piece d)

  next_part :
      (send : Bool) (left : ℕ) (m piece d : Bytes) (s : S) (o : Option Bytes)
      → g.is_closed s ≡ false
      → IsBytes piece
      → length m + length piece + 14 < 2 ^ 63
      → is_message_too_large r (length m + length piece) ≡ false
      → Ends false (m ++ piece) d s o
      → Ends send m (piece ++ d) s (put_before (laid_at left send false piece) o)
  next_part send left m piece d s none here range bound fits i = absurd i
  next_part send left m piece d s (some wire) here range bound fits i =
      part_loop send left m piece d wire s here range bound fits i

  write_nothing : (k : ℕ) → write_frames k w mt false false [] ≡ some []
  unfolding write_frames
  write_nothing zero = refl
  write_nothing (suc k) = refl

  frames-Ends :
      1 ≤ w.max_frame
      → (k : ℕ) (send : Bool) (m d : Bytes) (s : S) → length d ≤ k
      → g.is_closed s ≡ false
      → 0 < length d
      → IsBytes d
      → length m + length d + 14 < 2 ^ 63
      → is_message_too_large r (length m + length d) ≡ false
      → Ends send m d s (write_frames k w mt send false d)
  frames-Ends max zero send m d s enough here full range bound fits = absurd (omega arith)
  frames-Ends max (suc k) send m d s enough here full range bound fits =
      let n = min (length d) w.max_frame in
      let kept = length-take n d in
      let left = length-drop n d in
      rw (write_frames_more k send d full) (elim (Bool-cases (n == length d)) [
        | inl last ↦
            let whole : n ≡ length d = ground arith in
            let all : take n d ≡ d = take_whole n d (omega arith) in
            let none_left : drop n d ≡ [] = drop_whole n d (omega arith) in
            rw (last, all, none_left, write_nothing k)
              (end_frame send (length d) m d s here full range bound fits)
        | inr part ↦
            let less : n < length d = ground arith in
            let joined = length-append m (take n d) in
            let rest =
              frames-Ends max k false (m ++ take n d) (drop n d) s (omega arith) here (omega arith)
                (drop-IsBytes n d range) (omega arith)
                (Taking.smaller g r limit mt kind _ (length m + length d) (omega arith) fits) in
            rw part (
              rw (take-append-drop n d) at (
                next_part send (length d) m (take n d) (drop n d) s _ here (take-IsBytes n d range)
                  (omega arith)
                  (Taking.smaller g r limit mt kind _ (length m + length d) (omega arith) fits)
                  rest))
      ])

  abbrev pub Received : Bytes → S → Written → Type 0
  Received d s (wrote (some wire)) =
      parse (messages_only g) (idle s) wire ≡ ok (idle (g.handle_message mt d s))
  Received d s _ = ⊥

  parse-loop :
      (wire : Bytes) (s : S)
      → g.is_closed s ≡ false
      → parse (messages_only g) (idle s) wire
        ≡ loop (messages_only g) (suc (length wire)) (between r limit true mt [] wire s)
  unfolding parse
  parse-loop [] s here = sym (Taking.loop_idle g r limit mt kind 0 s)
  parse-loop (x ∷ wire) s here = ground arith

  written :
      (d : Bytes)
      → 0 < length d
      → write_message w mt false d ≡ wrote (write_frames (length d) w mt true false d)
  unfolding write_message
  written [] full = absurd (omega arith)
  written (x ∷ d) full = elim kind [ inl e ↦ rw e refl | inr e ↦ rw e refl ]

  Ends-Received :
      (d : Bytes) (s : S) (o : Option Bytes)
      → g.is_closed s ≡ false
      → Ends true [] d s o
      → Received d s (wrote o)
  Ends-Received d s none here i = i
  Ends-Received d s (some wire) here i =
      parse-loop wire s here ∙ i (suc (length wire)) (omega arith)

  -- A text or binary message of at least a byte that WriteMessage writes without compression, in as
  -- many frames as it takes, is given to the reader's message handler once and whole, and the reader
  -- is then as it was before. The reader waits for a message, is open, handles messages and not
  -- frames, and its limit does not refuse the message; a frame may hold a byte or more; the message
  -- is of bytes and its length does not overflow.
  pub parse-write_message :
      (d : Bytes) (s : S)
      → 1 ≤ w.max_frame
      → 0 < length d
      → IsBytes d
      → length d + 14 < 2 ^ 63
      → is_message_too_large r (length d) ≡ false
      → g.is_closed s ≡ false
      → Received d s (write_message w mt false d)
  parse-write_message d s max full range bound fits here = rw (written d full) (
      Ends-Received d s _ here (
        frames-Ends max (length d) true [] d s (omega arith) here full range (omega arith)
          (Taking.smaller g r limit mt kind _ (length d) (omega arith) fits)))
