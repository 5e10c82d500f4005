-- ===== src/Client/Messages.antt =====
-- pybotx/client/notifications_api and pybotx/client/events_api, and the methods of `Client` that use them.
mod Payloads
mod Endpoints
mod Methods
mod Events
mod Laws
unfoldable pub use Payloads.*
unfoldable pub use Endpoints.*
unfoldable pub use Methods.*
unfoldable pub use Events.*
pub use Laws.*
