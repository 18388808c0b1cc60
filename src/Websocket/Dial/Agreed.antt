-- ===== src/Websocket/Dial/Agreed.antt =====
-- The whole handshake: DialContext of nbhttp/websocket/dialer.go with Upgrade of
-- nbhttp/websocket/upgrader.go.
use nbio.Base.{true, ◌≡◌, Bytes}
use nbio.Go.Header.{Header}
use nbio.Websocket.Dial.Wire.{is_line, skip_spaces}

-- No line breaks, and no space at the front.
abbrev pub IsText : Bytes → Type 0
IsText b = (is_line b ≡ true) × (skip_spaces b ≡ b)
