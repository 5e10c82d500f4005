-- ===== src/Models/ApiBase.antt =====
-- pybotx/models/api_base.py: the removal of undefined fields. What pydantic and `json` do of a payload is
-- left out.
mod Defs
mod Laws
unfoldable pub use Defs.*
pub use Laws.*
