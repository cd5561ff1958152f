-- ===== src/Common.antt =====
-- The names that the other modules share: the libraries', passed on, and those of the children
-- (tests on numbers, lists, JavaScript's `Map` and `Set`, sorting).
mod Tests
mod Lists
mod Maps
mod Counts
mod Splits
mod Prefixes
mod Results
mod Texts
mod Sort
pub use Tests.*
pub use Lists.*
pub use Maps.*
pub use Counts.*
pub use Splits.*
pub use Prefixes.*
pub use Results.*
pub use Texts.*
unfoldable pub use Sort.{sort}
pub use Sort.{IsSorted, sort-IsSorted}
pub use Prim.Native.Nat.{ℕ, zero, suc, ◌+◌, ◌-◌, ◌*◌, ◌/◌, ◌%◌, ◌^◌, ◌≤◌, ◌<◌, min, max}
pub use mathlib.Core.Path.{◌≡◌, refl, sym, ap, subst, ◌∙◌}
pub use mathlib.Core.Logic.{◌≢◌, ◌↔◌, ◌⊎◌, inl, inr}
pub use mathlib.Core.Bool.{Bool, true, false, not, ◌&&◌, ◌||◌}
pub use mathlib.Core.Option.{Option, none, some}
pub use mathlib.Core.List.{List, [], ◌∷◌, ◌++◌, map}
pub use native.Mathlib.Omega.{arith}
