-- ===== src/Client/Stickers.antt =====
-- pybotx/client/stickers_api and pybotx/models/stickers.py, with the methods of `Client` that use them.
mod Payloads
mod Responses
mod Endpoints
mod Methods
mod Sorting
mod Paging
unfoldable pub use Payloads.*
unfoldable pub use Responses.*
unfoldable pub use Endpoints.*
unfoldable pub use Methods.*
pub use Sorting.*
pub use Paging.*
