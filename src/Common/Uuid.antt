-- ===== src/Common/Uuid.antt =====
-- `uuid.UUID`: a 128-bit number, read from text by `UUID(text)` and printed by `str`.
-- Decimal digits outside ASCII, which `int(text, 16)` also takes, are not read.
mod Defs
mod Print
unfoldable pub use Defs.*
unfoldable pub use Print.*
