-- ===== src/Parser/Text.antt =====
-- Go's bytes.TrimSpace and strconv as pkg/parser uses them.
mod Trim
mod Number
unfoldable pub use Trim.*
unfoldable pub use Number.*
pub mod NumberLaws
pub mod NumberRoundTrip
