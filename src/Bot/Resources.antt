-- ===== src/Bot/Resources.antt =====
-- pybotx/bot/resources, pybotx/bot/api/responses and pybotx/models/status.py
mod Requests
mod Defs
mod Verified
mod Errors
unfoldable pub use Requests.*
unfoldable pub use Defs.*
pub use Verified.*
pub use Errors.*
