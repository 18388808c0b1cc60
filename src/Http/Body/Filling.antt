-- ===== src/Http/Body/Filling.antt =====
-- nbhttp/body.go: append.
use nbio.Base.{
  ◌⊎◌, if◌then◌else◌, ◌&&◌, ℕ, ◌+◌, ◌-◌, ◌≤◌, ◌<◌, ◌≡◌, refl, sym, ap, ◌∙◌, List, [], ◌∷◌, ◌++◌,
  Bytes, Option, none, some, length, take, drop, arith, inl, inr, Bool-cases, append_assoc,
  append-nil, length-append, take-append-drop, is_nil, ltb, drop-append_le,
}
use nbio.Http.Body.{Buffer, BodyReader, Allocation, fill, append, malloc}
use nbio.Http.Body.Rounds.{flat, unread_of, unread, Within, Counted, flat-unread}

-- append puts the bytes behind those that are unread.
module _ (a : Allocation) where
  filled :
      (i cap : ℕ) (content taken over : Bytes)
      → i ≤ length content
      → unread_of i (
          if is_nil over
          then record { content = content ++ taken; capacity = cap } ∷ []
          else record { content = content ++ taken; capacity = cap } ∷ malloc a over ∷ [])
        ≡ drop i content ++ (taken ++ over)
  filled i cap content taken [] h =
      append-nil (drop i (content ++ taken))
      ∙ drop-append_le i content taken h
      ∙ ap (λ t. drop i content ++ t) (sym (append-nil taken))
  filled i cap content taken (x ∷ over) h =
      rw (append-nil over, drop-append_le i content taken h)
        (append_assoc (drop i content) taken (x ∷ over))

  fill_last :
      (i : ℕ) (b : Buffer) (more : Bytes)
      → i ≤ length b.content
      → unread_of i (fill a (b ∷ []) more) ≡ drop i b.content ++ more
  unfolding fill
  fill_last i b more h =
      let room = b.capacity - length b.content in
      filled i b.capacity b.content (take room more) (drop room more) h
      ∙ ap (λ t. drop i b.content ++ t) (take-append-drop room more)

  fill-flat : (bs : List Buffer) (more : Bytes) → flat (fill a bs more) ≡ flat bs ++ more
  unfolding fill
  fill-flat [] more = append-nil more
  fill-flat (b ∷ []) more =
      sym (flat-unread (fill a (b ∷ []) more))
      ∙ fill_last 0 b more (omega arith)
      ∙ ap (λ t. t ++ more) (sym (append-nil b.content))
  fill-flat (b ∷ c ∷ bs) more =
      ap (λ t. b.content ++ t) (fill-flat (c ∷ bs) more)
      ∙ sym (append_assoc b.content (flat (c ∷ bs)) more)

  pub fill-unread :
      (i : ℕ) (bs : List Buffer) (more : Bytes)
      → Within i bs
      → unread_of i (fill a bs more) ≡ unread_of i bs ++ more
  unfolding fill
  fill-unread i [] more h = rw h (append-nil more)
  fill-unread i (b ∷ []) more h =
      fill_last i b more h ∙ ap (λ t. t ++ more) (sym (append-nil (drop i b.content)))
  fill-unread i (b ∷ c ∷ bs) more h =
      ap (λ t. drop i b.content ++ t) (fill-flat (c ∷ bs) more)
      ∙ sym (append_assoc (drop i b.content) (flat (c ∷ bs)) more)

  pub fill-Within :
      (i : ℕ) (bs : List Buffer) (more : Bytes) → Within i bs → Within i (fill a bs more)
  unfolding fill
  fill-Within i [] more h = omega arith
  fill-Within i (b ∷ []) more h =
      ground (arith, length-append b.content (take (b.capacity - length b.content) more))
  fill-Within i (b ∷ c ∷ bs) more h = h

-- What append leaves: the bytes stand behind those that were unread, and the limit holds, if anything was put there.
pub record Appended (a : Allocation) (br : BodyReader) (more : Bytes) (q : BodyReader)
    : Type 0 where
  pub behind : unread q ≡ unread br ++ more
  pub counted : Counted q
  pub freed_same : q.freed ≡ br.freed
  pub closed_same : q.closed ≡ br.closed
  pub in_limit : (q.left ≡ br.left) ⊎ ((a.max_http_body_size ≡ 0) ⊎ (q.left ≤ a.max_http_body_size))

abbrev pub Appends : Allocation → BodyReader → Bytes → Option BodyReader → Type 0
Appends a br more none = (0 < a.max_http_body_size) × (a.max_http_body_size < length more + br.left)
Appends a br more (some q) = Appended a br more q

grown_Appended :
    (a : Allocation) (br : BodyReader) (more : Bytes)
    → Counted br
    → (a.max_http_body_size ≡ 0) ⊎ (br.left + length more ≤ a.max_http_body_size)
    → Appended a br more
        (record br { left = br.left + length more; buffers = fill a br.buffers more })
grown_Appended a br more c limit =
    let same = fill-unread a br.index br.buffers more c.index_in in
    record {
      behind = same;
      counted = record {
        all_left = omega (arith, ap length same, length-append (unread br) more, c.all_left);
        index_in = fill-Within a br.index br.buffers more c.index_in;
      };
      freed_same = refl;
      closed_same = refl;
      in_limit = inr limit;
    }

-- append takes the bytes behind all that is unread and keeps the body within its limit; or it
-- refuses them, and they would not have fitted. The reader counts its bytes.
pub append-Appends :
    (a : Allocation) (br : BodyReader) (more : Bytes)
    → Counted br
    → Appends a br more (append a br more)
unfolding append
append-Appends a br [] c = record {
  behind = sym (append-nil (unread br));
  counted = c;
  freed_same = refl;
  closed_same = refl;
  in_limit = inl refl;
}
append-Appends a br (x ∷ xs) c =
    elim (Bool-cases
      (ltb 0 a.max_http_body_size && ltb a.max_http_body_size (length (x ∷ xs) + br.left))) [
        | inl over ↦ rw (over, append) (ground arith)
        | inr fits ↦ rw (fits, append) (grown_Appended a br (x ∷ xs) c (ground arith))
      ]
