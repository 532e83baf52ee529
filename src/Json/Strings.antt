-- ===== src/Json/Strings.antt =====
-- src/json.c: strings with their escapes. The reader works on a buffer that ends with its NUL; a read
-- behind the NUL is `overread`, a write behind the end of the space that was allocated `overrun`.
pub mod Escape
pub mod Unescape
pub mod Decode
pub mod Written
pub mod ReadBack
pub mod RoundTrip
pub mod Supplementary
pub mod Overread
unfoldable pub use Escape.*
unfoldable pub use Unescape.*
unfoldable pub use Decode.*
