-- ===== src/Client.antt =====
-- pybotx/client
mod Action
mod Http
mod Auth
pub mod Calls
pub mod Keeping
pub mod Tokens
pub mod Chats
pub mod Messages
pub mod Files
pub mod Stickers
pub mod Users
pub mod SmartApps
pub mod Other
unfoldable pub use Action.*
unfoldable pub use Http.*
unfoldable pub use Auth.*
