-- ===== src/Websocket.antt =====
-- The folder nbhttp/websocket: masking, frames, messages and what they are answered with, the send
-- queue, and the handshake of both sides.
pub mod Mask
pub mod Frame
pub mod Head
pub mod RoundTrip
pub mod Bytewise
pub mod Prefix
pub mod Conn
pub mod Taking
pub mod Delivery
pub mod Control
pub mod Handled
pub mod SendQueue
pub mod Tokens
pub mod Upgrade
pub mod Dial
pub mod Takeover
mod Tests
