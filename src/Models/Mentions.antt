-- ===== src/Models/Mentions.antt =====
-- pybotx/models/message/mentions.py: mentions in outgoing texts. `Defs` has the mentions of both
-- sides, `Regex` the expression EMBED_MENTION_RE and its matches, `Replace` the loop over the
-- matches, and the other modules the proofs.
mod Defs
mod Regex
mod Replace
mod Matching
mod Pieces
mod Roundtrip
mod Filters
mod Newline
unfoldable pub use Defs.*
unfoldable pub use Regex.*
unfoldable pub use Replace.*
pub use Pieces.*
pub use Roundtrip.*
pub use Newline.*
unfoldable pub use Filters.*
