-- ===== src/Websocket/RoundTrip.antt =====
-- nbhttp/websocket/conn.go: nextFrame reads back what writeFrame laid out.
use nbio.Base.{
  ℕ, suc, ◌+◌, ◌^◌, ◌≤◌, ◌<◌, ◌≡◌, ap, ◌∙◌, Bool, true, false, ◌∷◌, ◌++◌, Option, none, Bytes,
  IsBytes, length, take, drop, leb, arith, inl, inr, Bool-cases, append_assoc, length-append,
  take-append_length, drop_add, le→leb, drop-append_length,
}
use nbio.Websocket.Mask.{put_le, mask_xor}
use nbio.Websocket.Bytewise.{length-mask_xor, mask_xor_twice}
use nbio.Websocket.Frame.{
  Rules, Error, frame, size, has_bit, low_bits, is_message_too_large, is_control, valid_frame,
  read_size, cut_frame, judge_frame, next_frame, put_size, put_first, put_frame,
  max_control_frame_payload_size,
}
use nbio.Websocket.Head.{sent, put_size-Sized, first_parts, put_le-IsBytes, length-put_le}

-- Behind the head stands the payload.
drop_head :
    (b0 b1 : ℕ) (ext payload : Bytes) → drop (2 + length ext) (b0 ∷ b1 ∷ (ext ++ payload)) ≡ payload
drop_head b0 b1 ext payload =
    let two : 2 + length ext ≡ suc (suc (length ext)) = omega arith in
    rw two (drop-append_length ext payload)

abbrev judged : Rules → Bool → ℕ → Option Error
judged r expecting b0 =
    valid_frame r (low_bits b0 4) (has_bit b0 7) (has_bit b0 6) (has_bit b0 5) (has_bit b0 4)
      expecting

module _ (r : Rules) (expecting : Bool) (b0 b1 : ℕ) (ext body rest : Bytes) where
  cut_plain :
      has_bit b1 7 ≡ false
      → 2 + length ext + length body < 2 ^ 63
      → judged r expecting b0 ≡ none
      → cut_frame r expecting b0 b1
          (b0 ∷ b1 ∷ (ext ++ (body ++ rest)))
          (2 + length ext)
          (length body)
        ≡ frame (record {
          total = 2 + length ext + length body;
          opcode = low_bits b0 4;
          body = body;
          fin = has_bit b0 7;
          compress = has_bit b0 6;
        })
  unfolding cut_frame
  cut_plain flag small valid =
      let wraps : leb (2 ^ 63) (2 + length ext + length body) ≡ false = ground arith in
      let fits : leb (2 + length ext + length body) (suc (suc (length (ext ++ (body ++ rest)))))
          ≡ true =
        le→leb _ _ (omega (arith, length-append ext (body ++ rest), length-append body rest)) in
      rw
        (flag, wraps, fits, drop_head b0 b1 ext (body ++ rest), take-append_length body rest, valid)

  cut_masked :
      (mask : Bytes)
      → length mask ≡ 4
      → IsBytes mask
      → IsBytes body
      → has_bit b1 7 ≡ true
      → 2 + length ext + 4 + length body < 2 ^ 63
      → judged r expecting b0 ≡ none
      → cut_frame r expecting b0 b1
          (b0 ∷ b1 ∷ (ext ++ (mask ++ (mask_xor body mask ++ rest))))
          (2 + length ext)
          (length body)
        ≡ frame (record {
          total = 2 + length ext + 4 + length body;
          opcode = low_bits b0 4;
          body = body;
          fin = has_bit b0 7;
          compress = has_bit b0 6;
        })
  unfolding cut_frame
  cut_masked mask four range bytes flag small valid =
      let payload = mask_xor body mask ++ rest in
      let wraps : leb (2 ^ 63) (2 + length ext + 4 + length body) ≡ false = ground arith in
      let same = length-mask_xor body mask four range bytes in
      let fits : leb (2 + length ext + 4 + length body)
            (suc (suc (length (ext ++ (mask ++ payload)))))
          ≡ true =
        le→leb _ _ (
          omega (
            arith,
            length-append ext (mask ++ payload),
            length-append mask payload,
            length-append (mask_xor body mask) rest,
          )) in
      let key_at : take 4 (mask ++ payload) ≡ mask = rw four at (take-append_length mask payload) in
      let behind : drop (2 + length ext + 4) (b0 ∷ b1 ∷ (ext ++ (mask ++ payload))) ≡ payload =
        drop_add (2 + length ext) 4 (b0 ∷ b1 ∷ (ext ++ (mask ++ payload)))
        ∙ ap (drop 4) (drop_head b0 b1 ext (mask ++ payload))
        ∙ rw four at (drop-append_length mask payload) in
      let raw : take (length body) payload ≡ mask_xor body mask =
        rw same at (take-append_length (mask_xor body mask) rest) in
      rw (
        flag,
        wraps,
        fits,
        behind,
        raw,
        drop_head b0 b1 ext (mask ++ payload),
        key_at,
        mask_xor_twice body mask four range bytes,
        valid,
      )

-- What next_frame reads of the head, and what it lets pass.
module _ (r : Rules) (message_len : ℕ) (expecting : Bool) where
  next_frame-judge :
      (b0 second n : ℕ) (ext t : Bytes)
      → read_size (low_bits second 7) (b0 ∷ second ∷ (ext ++ t)) ≡ size (2 + length ext) n
      → next_frame r message_len expecting (b0 ∷ second ∷ (ext ++ t))
        ≡ judge_frame r message_len expecting b0 second
            (b0 ∷ second ∷ (ext ++ t))
            (size (2 + length ext) n)
  unfolding next_frame
  next_frame-judge b0 second n ext t e =
      ap (judge_frame r message_len expecting b0 second (b0 ∷ second ∷ (ext ++ t))) e

  judge_frame-cut :
      (b0 second head n : ℕ) (cached : Bytes)
      → is_message_too_large r (message_len + n) ≡ false
      → (is_control (low_bits b0 4) ≡ true → n ≤ max_control_frame_payload_size)
      → judge_frame r message_len expecting b0 second cached (size head n)
        ≡ cut_frame r expecting b0 second cached head n
  unfolding judge_frame
  judge_frame-cut b0 second head n cached fits control = ground arith

module _ (r : Rules) (message_len : ℕ) (expecting : Bool) (b0 : ℕ) (body rest : Bytes) where
  next_frame_masked :
      (mask : Bytes)
      → length mask ≡ 4
      → IsBytes mask
      → IsBytes body
      → length body + 14 < 2 ^ 63
      → is_message_too_large r (message_len + length body) ≡ false
      → (is_control (low_bits b0 4) ≡ true → length body ≤ max_control_frame_payload_size)
      → judged r expecting b0 ≡ none
      → next_frame r message_len expecting
          ((b0 ∷ (put_size 128 (length body) ++ (mask ++ mask_xor body mask))) ++ rest)
        ≡ frame (record {
          total = length (b0 ∷ (put_size 128 (length body) ++ (mask ++ mask_xor body mask)));
          opcode = low_bits b0 4;
          body = body;
          fin = has_bit b0 7;
          compress = has_bit b0 6;
        })
  next_frame_masked mask four range bytes bound fits control valid =
      let x = mask_xor body mask in
      let s = put_size-Sized true (length body) b0 (mask ++ (x ++ rest)) (omega arith) in
      let flat : (s.ext ++ (mask ++ x)) ++ rest ≡ s.ext ++ (mask ++ (x ++ rest)) =
        append_assoc s.ext (mask ++ x) rest ∙ ap (λ t. s.ext ++ t) (append_assoc mask x rest) in
      let laid : (b0 ∷ (put_size 128 (length body) ++ (mask ++ x))) ++ rest
          ≡ b0 ∷ s.second ∷ (s.ext ++ (mask ++ (x ++ rest))) =
        rw s.splits (ap (λ t. b0 ∷ s.second ∷ t) flat) in
      let total : length (b0 ∷ (put_size 128 (length body) ++ (mask ++ x)))
          ≡ 2 + length s.ext + 4 + length body =
        rw s.splits (
          omega (
            arith,
            length-append s.ext (mask ++ x),
            length-append mask x,
            length-mask_xor body mask four range bytes,
          )) in
      rw (laid, total)
        (next_frame-judge r message_len expecting b0 s.second (length body) s.ext _ s.reads
          ∙ judge_frame-cut r message_len expecting b0 s.second _ _ _ fits control
          ∙ cut_masked r expecting b0 s.second s.ext body rest mask four range bytes s.mask_flag
              (omega (arith, s.few)) valid)

  next_frame_plain :
      length body + 14 < 2 ^ 63
      → is_message_too_large r (message_len + length body) ≡ false
      → (is_control (low_bits b0 4) ≡ true → length body ≤ max_control_frame_payload_size)
      → judged r expecting b0 ≡ none
      → next_frame r message_len expecting ((b0 ∷ (put_size 0 (length body) ++ body)) ++ rest)
        ≡ frame (record {
          total = length (b0 ∷ (put_size 0 (length body) ++ body));
          opcode = low_bits b0 4;
          body = body;
          fin = has_bit b0 7;
          compress = has_bit b0 6;
        })
  next_frame_plain bound fits control valid =
      let s = put_size-Sized false (length body) b0 (body ++ rest) (omega arith) in
      let laid : (b0 ∷ (put_size 0 (length body) ++ body)) ++ rest
          ≡ b0 ∷ s.second ∷ (s.ext ++ (body ++ rest)) =
        rw s.splits (ap (λ t. b0 ∷ s.second ∷ t) (append_assoc s.ext body rest)) in
      let total : length (b0 ∷ (put_size 0 (length body) ++ body))
          ≡ 2 + length s.ext + length body =
        rw s.splits (omega (arith, length-append s.ext body)) in
      rw (laid, total)
        (next_frame-judge r message_len expecting b0 s.second (length body) s.ext _ s.reads
          ∙ judge_frame-cut r message_len expecting b0 s.second _ _ _ fits control
          ∙ cut_plain r expecting b0 s.second s.ext body rest s.mask_flag (omega (arith, s.few))
              valid)

module _ (r : Rules) (message_len : ℕ) (expecting is_client : Bool) (key mt : ℕ)
    (send fin compress : Bool) (body rest : Bytes) where
  abbrev laid_out : Bytes
  laid_out = put_frame is_client key mt send fin body compress

  -- The frame that writeFrame lays out, whatever bytes follow it, is the frame that nextFrame takes off:
  -- the opcode and the flags it was written with, its body unmasked, and its length. The message type is
  -- below 16, the body is of bytes and the lengths do not overflow; the reader's limit, the length of a
  -- control frame and validFrame do not refuse it.
  pub next_frame-put_frame :
      mt < 16
      → IsBytes body
      → length body + 14 < 2 ^ 63
      → is_message_too_large r (message_len + length body) ≡ false
      → (is_control (sent send mt) ≡ true → length body ≤ max_control_frame_payload_size)
      → valid_frame r (sent send mt) fin compress false false expecting ≡ none
      → next_frame r message_len expecting (laid_out ++ rest)
        ≡ frame (record {
          total = length laid_out;
          opcode = sent send mt;
          body = body;
          fin = fin;
          compress = compress;
        })
  unfolding put_frame
  next_frame-put_frame small bytes bound fits control valid =
      let first = put_first mt send fin compress in
      let mask = put_le 4 key in
      let (op, f, c, r2, r3) = first_parts mt send fin compress small in
      let short : is_control (low_bits first 4) ≡ true
          → length body ≤ max_control_frame_payload_size =
        rw op control in
      let passes : judged r expecting first ≡ none = rw (op, f, c, r2, r3) valid in
      elim (Bool-cases is_client) [
        | inl client ↦ rw client (
            rw (op, f, c) at
              (next_frame_masked r message_len expecting first body rest mask (length-put_le 4 key)
                (put_le-IsBytes 4 key) bytes bound fits short passes))
        | inr server ↦ rw server (
            rw (op, f, c) at
              (next_frame_plain r message_len expecting first body rest bound fits short passes))
      ]
