-- ===== src/Http/Parser.antt =====
-- nbhttp/parser.go: the incremental HTTP/1 parser. State holds the data model, Framing the reading
-- of the framing headers, StartLine, Fields and Body the cases of the switch, Loop the loop.
pub mod State
pub mod Framing
pub mod StartLine
pub mod Fields
pub mod Body
pub mod Loop
pub mod Lengths
pub mod Progress
pub mod Sized
pub mod Errors
pub mod Locality
pub mod Steady
pub mod Contract
pub mod Split
pub mod Stream
mod Tests
