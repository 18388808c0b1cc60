-- ===== src/Http/Body/Reads.antt =====
-- nbhttp/body.go: the loop of Read, round by round.
use nbio.Base.{
  drop_whole, take_whole, ◌&&◌, ℕ, zero, suc, ◌-◌, ◌≤◌, ◌<◌, ◌≡◌, refl, sym, ap, ◌∙◌, true, List,
  [], ◌∷◌, ◌++◌, Bytes, length, take, drop, arith, inl, inr, ◌⊎◌, Bool-cases, append_assoc,
  append-nil, length-append, ltb,
}
use nbio.Http.Body.{Buffer, BodyReader, ReadResult, bytes, read_round, read_more, read_loop}
use nbio.Http.Body.Rounds.{unread, Counted, Round, read_round-Round}

pub take_through :
    (n : ℕ) (front back : Bytes)
    → length front ≤ n
    → take n (front ++ back) ≡ front ++ take (n - length front) back
take_through n [] back h = ap (λ k. take k back) (omega arith)
take_through zero (x ∷ front) back h = absurd (omega arith)
take_through (suc n) (x ∷ front) back h =
    ap (λ t. x ∷ t)
      (take_through n front back (omega arith) ∙ ap (λ k. front ++ take k back) (omega arith))

pub drop_through :
    (n : ℕ) (front back : Bytes)
    → length front ≤ n
    → drop n (front ++ back) ≡ drop (n - length front) back
drop_through n [] back h = ap (λ k. drop k back) (omega arith)
drop_through zero (x ∷ front) back h = absurd (omega arith)
drop_through (suc n) (x ∷ front) back h =
    drop_through n front back (omega arith) ∙ ap (λ k. drop k back) (omega arith)

-- `room` more bytes, or what there is, are read behind `out`.
pub record Reads (br : BodyReader) (room : ℕ) (out : Bytes) (r : BodyReader × ReadResult)
    : Type 0 where
  pub result : r.1 ≡ bytes (out ++ take room (unread br))
  pub rest : unread r.0 ≡ drop room (unread br)
  pub counted : Counted r.0
  pub owned : r.0.freed ++ r.0.buffers ≡ br.freed ++ br.buffers
  pub open_still : r.0.closed ≡ br.closed

stop-Reads :
    (br : BodyReader) (room : ℕ) (out : Bytes)
    → Counted br
    → (room ≡ 0) ⊎ (br.left ≡ 0)
    → Reads br room out (br, bytes out)
stop-Reads br room out c (inl full) = record {
  result = rw (full, append-nil out) refl;
  rest = rw full refl;
  counted = c;
  owned = refl;
  open_still = refl;
}
stop-Reads br room out c (inr none_left) =
    let gone : unread br ≡ [] = drop_whole 0 (unread br) (omega (arith, c.all_left)) in
    record {
      result =
          rw (take_whole room (unread br) (omega (arith, c.all_left)), gone, append-nil out) refl;
      rest = rw (drop_whole room (unread br) (omega (arith, c.all_left)), gone) refl;
      counted = c;
      owned = refl;
      open_still = refl;
    }

-- A round, and the rounds that follow it.
Round-Reads :
    (br : BodyReader) (room : ℕ) (out copied : Bytes) (next : BodyReader)
    (r : BodyReader × ReadResult)
    → Round br room (next, copied)
    → Reads next (room - length copied) (out ++ copied) r
    → Reads br room out r
Round-Reads br room out copied next r a b = record {
  result =
      b.result
      ∙ ap bytes (
          append_assoc out copied (take (room - length copied) (unread next))
          ∙ ap (λ t. out ++ t)
              (sym (take_through room copied (unread next) a.fits) ∙ ap (take room) a.in_order));
  rest = b.rest ∙ sym (drop_through room copied (unread next) a.fits) ∙ ap (drop room) a.in_order;
  counted = b.counted;
  owned = b.owned ∙ a.owned;
  open_still = b.open_still ∙ a.open_still;
}

no_buffers : (br : BodyReader) → br.buffers ≡ [] → Counted br → br.left ≡ 0
no_buffers br e c = rw e at c.all_left

pub read_loop-Reads :
    (fuel need : ℕ) (br : BodyReader) (out : Bytes)
    → length out ≤ need
    → 1 ≤ fuel
    → (length out ≡ need) ⊎ (length br.buffers < fuel)
    → Counted br
    → Reads br (need - length out) out (read_loop fuel need br out)
unfolding read_loop
read_loop-Reads zero need br out fit some_fuel enough c = absurd (omega arith)
read_loop-Reads (suc fuel) need br out fit some_fuel enough c =
    elim (Bool-cases (ltb (length out) need && ltb 0 br.left)) [
      | inl go ↦ rw (go, read_loop) (more (read_loop-Reads fuel need) go br.buffers refl)
      | inr stop ↦ rw (stop, read_loop) (stop-Reads br (need - length out) out c (ground arith))
    ]
  where
    more :
        ((q : BodyReader) (o : Bytes)
          → length o ≤ need
          → 1 ≤ fuel
          → (length o ≡ need) ⊎ (length q.buffers < fuel)
          → Counted q
          → Reads q (need - length o) o (read_loop fuel need q o))
        → (ltb (length out) need && ltb 0 br.left) ≡ true
        → (bs : List Buffer) → br.buffers ≡ bs
        → Reads br (need - length out) out (read_more (read_loop fuel need) need br out bs)
    more ih go [] e = absurd (ground (arith, no_buffers br e c))
    more ih go (b ∷ bs) e =
        let room = need - length out in
        let r = read_round br room b bs in
        let a = read_round-Round br room b bs e c in
        let joined = length-append out r.1 in
        let missing : need - length (out ++ r.1) ≡ room - length r.1 = omega arith in
        let ahead : (length (out ++ r.1) ≡ need) ⊎ (length r.0.buffers < fuel) =
          ground (arith, a.shorter) in
        let some_left : 1 ≤ fuel = ground (arith, ap length e) in
        Round-Reads br room out r.1 r.0 _ a
          (rw missing at (ih r.0 (out ++ r.1) (omega (arith, a.fits)) some_left ahead a.counted))
