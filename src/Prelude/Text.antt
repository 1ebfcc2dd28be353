-- ===== src/Prelude/Text.antt =====
-- Text as a list of code points (Rust's `chars()`), with what `str` and `char` do with it.
mod Defs
mod Chars
mod Strings
mod Decimal
unfoldable pub use Defs.*
unfoldable pub use Chars.*
unfoldable pub use Strings.*
unfoldable pub use Decimal.*
mod Trim
pub use Trim.*
