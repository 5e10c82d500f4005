-- ===== src/Models/Markup.antt =====
-- pybotx/models/message/markup.py: the buttons under a message.
mod Defs
mod Api
mod Laws
unfoldable pub use Defs.*
unfoldable pub use Api.*
pub use Laws.*
