-- ===== src/Client/Chats.antt =====
-- pybotx/client/chats_api, and the methods of `Client` that use it.
mod Payloads
mod Responses
mod Endpoints
mod Methods
unfoldable pub use Payloads.*
unfoldable pub use Responses.*
unfoldable pub use Endpoints.*
unfoldable pub use Methods.*
