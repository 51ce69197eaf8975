-- ===== src/Go.antt =====
-- What the source uses of Go's standard library on text: strconv, strings, and `range` over a string.
pub mod Strconv
pub mod Strings
pub mod Trim
pub mod Path
pub mod Order
pub mod Runes
