-- ===== src/Net/Poller/Opened.antt =====
-- poller_epoll.go: a socket that stays open, and what its handler of data was given.
use nbio.Base.{
  ◌≡◌, refl, sym, ap, ◌∙◌, Bool, true, false, not, ◌&&◌, List, [], ◌∷◌, ◌++◌, none, Bytes, arith,
  append-nil, append_assoc, if◌then◌else◌,
}
use nbio.Net.Poller.{
  Answer, got, interrupted, again, failed, Event, flushed, connected, async_read, on_read, data',
  control, closed_with, Socket, Engine, emit, modify, reset_poller_event, reset_read, handle_write,
}

-- The bytes that the handler of data is given.
unfoldable pub delivered : List Event → Bytes
delivered [] = []
delivered (data' b ∷ es) = b ++ delivered es
delivered (_ ∷ es) = delivered es

-- What the kernel holds: all bytes up to an end of the stream, EAGAIN or an error.
unfoldable pub held_bytes : List Answer → Bytes
held_bytes [] = []
held_bytes (got [] ∷ rest) = []
held_bytes (got (b ∷ bs) ∷ rest) = (b ∷ bs) ++ held_bytes rest
held_bytes (interrupted ∷ rest) = held_bytes rest
held_bytes (again ∷ rest) = []
held_bytes (failed e ∷ rest) = []

pub delivered-append : (xs ys : List Event) → delivered (xs ++ ys) ≡ delivered xs ++ delivered ys
unfolding delivered
delivered-append [] ys = refl
delivered-append (data' b ∷ es) ys =
    ap (λ t. b ++ t) (delivered-append es ys) ∙ sym (append_assoc b (delivered es) (delivered ys))
delivered-append (flushed ∷ es) ys = delivered-append es ys
delivered-append (connected ∷ es) ys = delivered-append es ys
delivered-append (async_read ∷ es) ys = delivered-append es ys
delivered-append (on_read ∷ es) ys = delivered-append es ys
delivered-append (control i ∷ es) ys = delivered-append es ys
delivered-append (closed_with e ∷ es) ys = delivered-append es ys

-- An open socket of a stream, whose handler was given `total`.
abbrev pub Open : Bytes → Socket → Type 0
Open total c = (c.closed ≡ false) × (c.datagram ≡ false) × (delivered c.events ≡ total)

module _ (g : Engine) where
  pub choose-Open :
      (total : Bytes) (b : Bool) (x y : Socket)
      → Open total x
      → Open total y
      → Open total (if b then x else y)
  choose-Open total true x y h k = h
  choose-Open total false x y h k = k

  emit-Open :
      (total : Bytes) (es : List Event) (c : Socket)
      → delivered es ≡ []
      → Open total c
      → Open total (emit es c)
  emit-Open total es c none_given (up, stream, d) = (
    up,
    stream,
    delivered-append c.events es
        ∙ ap (λ t. delivered c.events ++ t) none_given
        ∙ append-nil (delivered c.events)
        ∙ d,
  )

  modify-Open : (total : Bytes) (b : Bool) (c : Socket) → Open total c → Open total (modify g b c)
  unfolding modify delivered
  modify-Open total b c h =
      let asked : Event =
        control (record { writing = b; edge = g.edge; oneshot = g.edge && g.oneshot }) in
      choose-Open total (g.edge && not g.oneshot) c (emit (asked ∷ []) c) h
        (emit-Open total (asked ∷ []) c refl h)

  pub write-Open : (total : Bytes) (c : Socket) → Open total c → Open total (handle_write g none c)
  unfolding handle_write reset_read delivered
  write-Open total c h =
      let told = record (emit (connected ∷ []) c) { has_on_connected = false } in
      let (up, stream, d) = emit-Open total (connected ∷ []) c refl h in
      choose-Open total c.has_on_connected (reset_read g told) (emit (flushed ∷ []) c)
        (choose-Open total (not c.closed && c.is_w_added)
          (modify g false (record told { is_w_added = false })) told
          (modify-Open total false (record told { is_w_added = false }) (up, stream, d))
          (up, stream, d))
        (emit-Open total (flushed ∷ []) c refl h)

  pub reset_closed : (c : Socket) → c.closed ≡ true → reset_poller_event g c ≡ c
  unfolding reset_poller_event
  reset_closed c e = ground arith

  pub reset-Open : (total : Bytes) (c : Socket) → Open total c → Open total (reset_poller_event g c)
  unfolding reset_poller_event
  reset-Open total c h =
      choose-Open total (g.oneshot && not c.closed) (modify g (not c.nothing_queued) c) c
        (modify-Open total (not c.nothing_queued) c h) h
