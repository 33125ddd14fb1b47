-- ===== src/Prelude.antt =====
-- What the modules share: names of the libraries, tests on numbers, lists and tables of rows.
mod Tests
mod Lists
mod Tables
mod Held
mod Maps
mod Totals
pub use Tests.*
unfoldable pub use Lists.*
pub use Tables.*
pub use Held.*
pub use Maps.*
pub use Totals.*
pub use Prim.Native.Nat.{ℕ, zero, suc, ◌+◌, ◌-◌, ◌*◌, ◌/◌, ◌%◌, ◌^◌, ◌≤◌, ◌<◌, min, max}
pub use mathlib.Core.Path.{◌≡◌, refl, sym, ap, ◌∙◌, subst}
pub use mathlib.Core.Logic.{◌≢◌, ◌⊎◌, inl, inr}
pub use mathlib.Core.Bool.{Bool, true, false, not, ◌&&◌, ◌||◌}
pub use mathlib.Core.Option.{Option, none, some}
pub use mathlib.Core.List.{List, [], ◌∷◌, ◌++◌, map}
pub use native.Mathlib.Omega.{arith}
