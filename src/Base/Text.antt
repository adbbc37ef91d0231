-- ===== src/Base/Text.antt =====
-- Text and bytes as lists of numbers (code points, bytes), with the methods of `str` and `bytes`
-- that the program calls. Case and white space are those of ASCII.
mod Laws
pub use Laws.*
pub mod Defs
pub mod Parts
pub mod Split
unfoldable pub use Defs.*
