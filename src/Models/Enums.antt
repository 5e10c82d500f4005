-- ===== src/Models/Enums.antt =====
-- pybotx/models/enums.py
mod Types
mod Values
mod Convert
mod Laws
pub use Types.*
unfoldable pub use Values.*
unfoldable pub use Convert.*
pub use Laws.*
