-- ===== src/Prelude.antt =====
-- The names that the other modules share: the libraries' names passed on, tests and equality
-- (Prelude/Tests), lists (Prelude/Lists) and texts (Prelude/Text,
-- Prelude/Split).
mod Tests
mod Lists
mod Text
mod Split
pub use Tests.*
pub use Lists.*
unfoldable pub use Text.*
pub use Split.*
pub use Prim.Native.Nat.{ℕ, zero, suc, ◌+◌, ◌-◌, ◌*◌, ◌≤◌, ◌<◌}
pub use Prim.Native.String.{String}
pub use mathlib.Core.Path.{◌≡◌, refl, sym, ap, subst, ◌∙◌}
pub use mathlib.Core.Logic.{◌≢◌, ◌↔◌, ◌⊎◌, inl, inr}
pub use mathlib.Core.Bool.{Bool, true, false, not, ◌&&◌, ◌||◌}
pub use mathlib.Core.Option.{Option, none, some}
pub use mathlib.Core.List.{List, [], ◌∷◌, ◌++◌, map}
pub use native.Mathlib.Omega.{arith}
