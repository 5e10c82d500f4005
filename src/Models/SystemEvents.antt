-- ===== src/Models/SystemEvents.antt =====
-- pybotx/models/system_events and the union of commands of pybotx/models/commands.py.
mod Types
mod Convert
mod Laws
unfoldable pub use Types.*
unfoldable pub use Convert.*
pub use Laws.*
