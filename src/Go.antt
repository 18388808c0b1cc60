-- ===== src/Go.antt =====
-- What the code calls of Go's standard library, as Go defines it: byte strings, number parsing, runes
-- of UTF-8, and http.Header. The code under nbhttp uses it through these names.
pub mod Text
pub mod Number
pub mod Header
pub mod Runes
