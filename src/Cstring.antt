-- ===== src/Cstring.antt =====
-- The parts of the C language and its library that the programs use on text: arrays of chars with
-- their bounds, NUL-terminated strings, character classes, and numbers in decimal.
-- A `char` is its byte, 0 to 255. `none` stands for an access outside an array.
mod Array
mod Ctype
mod Number
mod Radix
pub mod Laws
pub mod Decimal
pub mod Zeros
pub mod Blocks
pub mod Remains
unfoldable pub use Array.*
unfoldable pub use Ctype.*
unfoldable pub use Number.*
unfoldable pub use Radix.*
