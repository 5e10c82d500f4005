-- ===== src/Models/Files.antt =====
-- pybotx/models/files.py
mod Defs
mod Dump
mod Roundtrip
unfoldable pub use Defs.*
unfoldable pub use Dump.*
pub use Roundtrip.*
