-- ===== src/Prelude.antt =====
-- The names that the modules of the library share: the libraries', passed on, and those of the
-- children, which stand for Python built-ins (comparisons, lists, sets, `sorted`, `str`, `raise`).
mod Tests
mod Results
mod Lists
mod Sets
mod Dicts
mod Sorting
mod Strings
mod Counting
mod Membership
pub use Tests.*
pub use Results.*
pub use Lists.*
pub use Sets.*
pub use Dicts.*
pub use Sorting.*
pub use Strings.*
pub use Counting.*
pub use Membership.*
pub use Prim.Native.Nat.{ℕ, zero, suc, ◌+◌, ◌-◌, ◌≤◌, ◌<◌}
pub use Prim.Native.String.{String}
pub use mathlib.Core.Path.{◌≡◌, refl, sym, ap, ◌∙◌}
pub use mathlib.Core.Logic.{◌≢◌, ◌↔◌, ◌⊎◌, inl, inr}
pub use mathlib.Core.Bool.{Bool, true, false, not, ◌&&◌, ◌||◌}
pub use mathlib.Core.Option.{Option, none, some}
pub use mathlib.Core.List.{List, [], ◌∷◌, ◌++◌, map, Perm}
pub use native.Mathlib.Omega.{arith}
