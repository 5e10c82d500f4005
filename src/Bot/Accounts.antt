-- ===== src/Bot/Accounts.antt =====
-- pybotx/bot/bot_accounts_storage.py and pybotx/auth.py
mod Defs
mod Laws
mod Token
unfoldable pub use Defs.*
pub use Laws.*
pub use Token.*
