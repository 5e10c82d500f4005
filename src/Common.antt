-- ===== src/Common.antt =====
-- The names that every module shares: the libraries', passed on, and those of the children, which
-- hold the parts of Python that the sources use (tests, lists, exceptions, text, dictionaries, UUIDs
-- and JSON values).
mod Tests
mod Lists
mod Results
pub mod Text
pub mod Uuid
pub mod Dict
pub mod Json
pub mod Base64
pub use Tests.*
pub use Lists.*
pub use Results.*
pub use Prim.Native.Nat.{ℕ, zero, suc, ◌+◌, ◌-◌, ◌*◌, ◌/◌, ◌%◌, ◌^◌, ◌≤◌, ◌<◌}
pub use mathlib.Core.Path.{◌≡◌, refl, sym, ap, subst, ◌∙◌}
pub use mathlib.Core.Logic.{◌≢◌, ◌↔◌, ◌⊎◌, inl, inr}
pub use mathlib.Core.Bool.{Bool, true, false, not, ◌&&◌, ◌||◌}
pub use mathlib.Core.Option.{Option, none, some}
pub use mathlib.Core.List.{List, [], ◌∷◌, ◌++◌, map, append_assoc, append-nil}
pub use native.Mathlib.Omega.{arith}
