-- ===== src/Shared.antt =====
-- The names that the modules of the library share: the libraries' own, passed on, and those of
-- the children, which stand for the constructs of the source language (conditionals, optional
-- values, arrays, `for` loops and insertion-ordered maps).
mod Tests
mod Lists
mod Loops
mod Maps
mod Groups
mod Collect
mod Best
mod First
mod Text
mod Joined
mod Indexes
mod Sorting
mod Positions
pub use Tests.*
pub use Lists.*
pub use Loops.*
pub use Maps.*
pub use Groups.*
pub use Collect.*
pub use Best.*
pub use First.*
pub use Text.*
pub use Joined.*
pub use Indexes.*
pub use Sorting.*
pub use Positions.*
pub use Prim.Native.Nat.{ℕ, zero, suc, ◌+◌, ◌-◌, ◌*◌, ◌/◌, ◌%◌, ◌≤◌, ◌<◌, min, max}
pub use Prim.Native.String.{String}
pub use mathlib.Core.Path.{◌≡◌, refl, sym, ap, subst, ◌∙◌, fun_ext}
pub use mathlib.Core.Logic.{◌≢◌, ◌↔◌, ◌⊎◌, inl, inr}
pub use mathlib.Core.Bool.{Bool, true, false, not, ◌&&◌, ◌||◌}
pub use mathlib.Core.Option.{Option, none, some}
pub use mathlib.Core.List.{List, [], ◌∷◌, ◌++◌, map, Memᴰ}
pub use native.Mathlib.Omega.{arith}
pub use text.Mathlib.Text.{◌==◌ as str_eq}
pub use text.Mathlib.TextEquality.{eq_iff}
pub use text.Mathlib.TextPositions.{eq_refl}
