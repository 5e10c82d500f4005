-- ===== src/Client/Files.antt =====
-- pybotx/buffer.py, pybotx/image_validators.py and pybotx/client/files_api, with the methods of `Client` that use the latter.
mod Buffers
mod Methods
mod Laws
unfoldable pub use Buffers.*
unfoldable pub use Methods.*
pub use Laws.*
