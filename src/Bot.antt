-- ===== src/Bot.antt =====
-- pybotx/bot
pub mod Verification
pub mod Accounts
pub mod Resources
