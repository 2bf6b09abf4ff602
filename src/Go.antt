-- ===== src/Go.antt =====
-- What the program uses of Go's standard library: byte strings, decimal numbers, base64url, instants.
pub mod Text
pub mod Decimal
pub mod Base64
pub mod Clock
