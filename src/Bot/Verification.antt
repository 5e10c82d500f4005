-- ===== src/Bot/Verification.antt =====
-- pybotx/bot/verification.py
mod Jwt
mod Defs
mod Inversion
mod Soundness
mod Errors
unfoldable pub use Jwt.*
unfoldable pub use Defs.*
pub use Soundness.*
pub use Errors.*
