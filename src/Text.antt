-- ===== src/Text.antt =====
-- Rust's `str` as its bytes of UTF-8, with the functions of the standard library that the crates
-- call. An index, a length and a slice count bytes, as in Rust.
mod Ascii
pub mod Search
pub mod Trim
pub mod Number
mod Utf8
pub mod Dict
pub mod Replace
pub mod Laws
unfoldable pub use Ascii.*
unfoldable pub use Search.*
unfoldable pub use Trim.*
unfoldable pub use Number.*
unfoldable pub use Utf8.*
unfoldable pub use Dict.*
unfoldable pub use Replace.*
