-- ===== src/Tests.antt =====
-- The theorems at concrete inputs.
mod Models
mod Commands
mod Bot
mod Client
