-- ===== src/Common/Text.antt =====
-- Python's `str` as the list of its code points, with the methods that the sources use.
-- `lower` changes the ASCII letters and leaves every other character as it is.
mod Defs
mod Split
mod Words
mod Search
unfoldable pub use Defs.*
unfoldable pub use Split.*
pub use Words.*
unfoldable pub use Search.*
