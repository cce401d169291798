-- ===== src/Base.antt =====
-- The names that all modules share: the libraries', passed on, and those of the children.
mod Tests
mod Lists
mod Strings
pub mod Equality
pub mod Dict
pub mod Int
pub mod Split
pub mod Collections
pub mod Sort
pub use Equality.{Eq}
pub use Equality.{text_eq}
pub use Tests.*
pub use Lists.*
pub use Strings.{lit-ne, ==_iff, ==-refl, ==-comm, eq-of-==, ne-of-==}
unfoldable pub use Strings.{Text, lit, ◌==◌}
pub use Prim.Native.Nat.{ℕ, zero, suc, ◌+◌, ◌-◌, ◌*◌, ◌≤◌, ◌<◌, max}
pub use mathlib.Core.Path.{◌≡◌, refl, sym, ap, ◌∙◌}
pub use mathlib.Core.Logic.{◌≢◌, ◌↔◌, ◌⊎◌, inl, inr}
pub use mathlib.Core.Bool.{Bool, true, false, not, ◌&&◌, ◌||◌}
pub use mathlib.Core.Option.{Option, none, some}
pub use mathlib.Core.List.{List, [], ◌∷◌, ◌++◌, map}
pub use native.Mathlib.Omega.{arith}
