-- ===== src/Base.antt =====
-- The names that every module shares: those of the libraries, passed on, and the helpers of the
-- children (tests, lists over native numbers, texts, results, integers,
-- dictionaries).
mod Tests
mod Lists
mod Texts
mod Results
mod Int
mod Dicts
unfoldable pub use Tests.*
pub use Lists.*
unfoldable pub use Texts.*
pub use Results.*
pub use Int.*
unfoldable pub use Dicts.*
pub use Prim.Native.Nat.{ℕ, zero, suc, ◌+◌, ◌-◌, ◌*◌, ◌/◌, ◌%◌, ◌^◌, ◌≤◌, ◌<◌, min, max}
pub use mathlib.Core.Path.{◌≡◌, refl, sym, ap, ◌∙◌, subst}
pub use mathlib.Core.Logic.{◌≢◌, ◌↔◌, ◌⊎◌, inl, inr}
pub use mathlib.Core.Bool.{Bool, true, false, not, ◌&&◌, ◌||◌}
pub use mathlib.Core.Option.{Option, none, some}
pub use mathlib.Core.List.{List, [], ◌∷◌, ◌++◌, map, append-nil, append_assoc}
pub use native.Mathlib.Omega.{arith}
