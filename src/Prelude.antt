-- ===== src/Prelude.antt =====
-- Names that the other modules share: the libraries', passed on, and those of the children. No
-- code of the program is modelled here but the calls of `strcmp`, `strncmp`, `strchr` and `strlen`.
mod Bools
mod Lists
mod Strings
mod Ints
mod Maps
pub use Bools.*
pub use Lists.*
unfoldable pub use Strings.*
unfoldable pub use Ints.*
unfoldable pub use Maps.*
pub use Prim.Native.Nat.{ℕ, zero, suc, ◌+◌, ◌-◌, ◌*◌, ◌/◌, ◌%◌, ◌^◌, ◌≤◌, ◌<◌}
pub use mathlib.Core.Path.{◌≡◌, refl, sym, ap, subst, ◌∙◌}
pub use mathlib.Core.Logic.{◌≢◌, ◌↔◌, ◌⊎◌, inl, inr}
pub use mathlib.Core.Bool.{Bool, true, false, not, ◌&&◌, ◌||◌}
pub use mathlib.Core.Option.{Option, none, some, some-injective}
pub use mathlib.Core.List.{List, [], ◌∷◌, ◌++◌}
pub use native.Mathlib.Omega.{arith}
