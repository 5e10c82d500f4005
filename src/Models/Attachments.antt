-- ===== src/Models/Attachments.antt =====
-- pybotx/models/attachments.py
mod Mimetypes
mod Defs
mod Roundtrip
unfoldable pub use Mimetypes.*
unfoldable pub use Defs.*
pub use Roundtrip.*
