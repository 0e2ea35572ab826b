-- ===== src/Go.antt =====
-- What the program uses of Go's standard library: texts and error values.
pub mod Text
pub mod Equal
pub mod Words
pub mod Spaces
pub mod Failure
pub mod Number
