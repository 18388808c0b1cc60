-- ===== src/Http.antt =====
-- The folder nbhttp: the character tables, the incremental parser, the body reader, the response, the
-- processors and the client.
pub mod Table
pub mod Parser
pub mod Body
pub mod Response
pub mod Processor
pub mod ClientConn
pub mod HostConns
