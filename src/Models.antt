-- ===== src/Models.antt =====
-- pybotx/models
pub mod Enums
pub mod Mentions
pub mod BotAccount
pub mod Attachments
pub mod Message
pub mod Files
pub mod SystemEvents
pub mod ApiBase
pub mod Markup
pub mod Outgoing
pub mod SyncSmartApp
