-- ===== src/Base.antt =====
-- The names that the components share: those of the libraries, passed on, and those of the
-- children (Boolean tests, lists, strings, dictionaries, sorting, exceptions).
mod Tests
mod Lists
mod Text
mod Maps
mod Ranked
mod Merging
mod Errors
mod Rows
mod Same
unfoldable pub use Tests.*
unfoldable pub use Lists.*
unfoldable pub use Text.*
unfoldable pub use Maps.*
unfoldable pub use Merging.*
unfoldable pub use Ranked.*
unfoldable pub use Rows.*
unfoldable pub use Same.*
unfoldable pub use Errors.*
pub use Prim.Native.Nat.{ℕ, zero, suc, ◌+◌, ◌-◌, ◌*◌, ◌/◌, ◌%◌, ◌^◌, ◌≤◌, ◌<◌}
pub use mathlib.Core.Path.{◌≡◌, refl, sym, ap, subst, ◌∙◌}
pub use mathlib.Core.Logic.{◌≢◌, ◌↔◌, ◌⊎◌, inl, inr}
pub use mathlib.Core.Bool.{Bool, true, false, ◌&&◌, ◌||◌, not}
pub use mathlib.Core.Option.{Option, none, some}
pub use mathlib.Core.List.{List, [], ◌∷◌, ◌++◌, map}
pub use native.Mathlib.Omega.{arith}
