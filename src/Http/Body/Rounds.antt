-- ===== src/Http/Body/Rounds.antt =====
-- nbhttp/body.go: a round of the loop of Read.
use nbio.Base.{
  drop_whole, take_whole, ℕ, suc, ◌+◌, ◌-◌, ◌≤◌, ◌<◌, min, ◌≡◌, refl, sym, ap, ◌∙◌, List, [], ◌∷◌,
  ◌++◌, Bytes, length, take, drop, arith, inl, inr, ◌⊎◌, Bool-cases, append_assoc, length-append,
  length-drop, length-take, take-append-drop, leb, drop_add, leb→le,
}
use nbio.Http.Body.{Buffer, BodyReader, read_round, drop_head}

abbrev pub flat : List Buffer → Bytes
flat [] = []
flat (b ∷ bs) = b.content ++ flat bs

-- The bytes that are still to be read, behind the index in the head buffer.
abbrev pub unread_of : ℕ → List Buffer → Bytes
unread_of i [] = []
unread_of i (b ∷ bs) = drop i b.content ++ flat bs

abbrev pub unread : BodyReader → Bytes
unread br = unread_of br.index br.buffers

abbrev pub Within : ℕ → List Buffer → Type 0
Within i [] = i ≡ 0
Within i (b ∷ bs) = i ≤ length b.content

-- `left` counts the unread bytes, and the index stands in the head buffer.
pub record Counted (br : BodyReader) : Type 0 where
  pub all_left : br.left ≡ length (unread br)
  pub index_in : Within br.index br.buffers

pub flat-unread : (bs : List Buffer) → unread_of 0 bs ≡ flat bs
flat-unread [] = refl
flat-unread (b ∷ bs) = refl

pub flat-Within : (bs : List Buffer) → Within 0 bs
flat-Within [] = refl
flat-Within (b ∷ bs) = omega arith

-- What a round copies stands in front of what is left, and a round frees what it drops.
pub record Round (br : BodyReader) (room : ℕ) (r : BodyReader × Bytes) : Type 0 where
  pub in_order : r.1 ++ unread r.0 ≡ unread br
  pub fits : length r.1 ≤ room
  pub counted : Counted r.0
  pub owned : r.0.freed ++ r.0.buffers ≡ br.freed ++ br.buffers
  pub open_still : r.0.closed ≡ br.closed
  pub shorter : (length r.1 ≡ room) ⊎ (suc (length r.0.buffers) ≤ length br.buffers)
  pub still : length r.0.buffers ≤ length br.buffers

-- The whole rest `front` of the head buffer is copied, and the buffer is freed.
drop_head-Round :
    (br : BodyReader) (room : ℕ) (b : Buffer) (bs : List Buffer) (front : Bytes)
    → br.buffers ≡ b ∷ bs
    → Counted br
    → drop br.index b.content ≡ front
    → length front ≤ room
    → Round br room (drop_head br b bs (length front), front)
drop_head-Round br room b bs front e c f fits =
    let before : unread br ≡ front ++ flat bs = rw (e, f) refl in
    let left : br.left ≡ length front + length (flat bs) =
      c.all_left ∙ ap length before ∙ length-append front (flat bs) in
    record {
      in_order = rw (flat-unread bs) (sym before);
      fits = fits;
      counted = record { all_left = rw (flat-unread bs) (omega arith); index_in = flat-Within bs };
      owned = append_assoc br.freed (b ∷ []) bs ∙ rw e refl;
      open_still = refl;
      shorter = inr (rw e (omega arith));
      still = rw e (omega arith);
    }

-- The rest of the head buffer is longer than the room.
part_Round :
    (br : BodyReader) (room : ℕ) (b : Buffer) (bs : List Buffer)
    → br.buffers ≡ b ∷ bs
    → Counted br
    → br.index + room < length b.content
    → Round br room (
      record br { index = br.index + room; left = br.left - room },
      take room (drop br.index b.content),
    )
part_Round br room b bs e c less =
    let front = drop br.index b.content in
    let count : length (take room front) ≡ room =
      omega (arith, length-take room front, length-drop br.index b.content) in
    let before : unread br ≡ front ++ flat bs = rw e refl in
    let after : unread_of (br.index + room) br.buffers ≡ drop room front ++ flat bs =
      rw (e, drop_add br.index room b.content) refl in
    let left : br.left ≡ length front + length (flat bs) =
      c.all_left ∙ ap length before ∙ length-append front (flat bs) in
    record {
      in_order = rw after (
          sym (append_assoc (take room front) (drop room front) (flat bs))
          ∙ rw (take-append-drop room front) (sym before));
      fits = omega arith;
      counted = record {
        all_left = rw after (
            omega (
              arith,
              length-append (drop room front) (flat bs),
              length-drop room front,
              length-drop br.index b.content,
            ));
        index_in = rw e (omega arith);
      };
      owned = refl;
      open_still = refl;
      shorter = inl count;
      still = omega arith;
    }

head_within :
    (br : BodyReader) (b : Buffer) (bs : List Buffer)
    → br.buffers ≡ b ∷ bs
    → Counted br
    → br.index ≤ length b.content
head_within br b bs e c = rw e at c.index_in

pub read_round-Round :
    (br : BodyReader) (room : ℕ) (b : Buffer) (bs : List Buffer)
    → br.buffers ≡ b ∷ bs
    → Counted br
    → Round br room (read_round br room b bs)
unfolding read_round
read_round-Round br room b bs e c =
    let here = head_within br b bs e c in
    let front = drop br.index b.content in
    let size = length-drop br.index b.content in
    let nc = min room (length b.content - br.index) in
    elim (Bool-cases (leb (length b.content) br.index)) [
      | inl used ↦
          let none_left : front ≡ [] = drop_whole br.index b.content (leb→le _ _ used) in
          rw used (drop_head-Round br room b bs [] e c none_left (omega arith))
      | inr more ↦ elim (Bool-cases (leb (length b.content) (nc + br.index))) [
        | inl all ↦
            let amount : nc ≡ length front = ground arith in
            let copied : take nc front ≡ front = take_whole nc front (omega arith) in
            rw (more, all, copied, amount)
              (drop_head-Round br room b bs front e c refl (ground arith))
        | inr part ↦
            let amount : nc ≡ room = ground arith in
            rw (more, part, amount) (part_Round br room b bs e c (ground arith))
      ]
    ]
