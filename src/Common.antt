-- ===== src/Common.antt =====
-- The names that the modules of the library share: the libraries', passed on, and those of the
-- children.
mod Tests
mod Lists
mod Strings
mod Maps
pub mod Result
pub use Tests.*
pub use Lists.*
unfoldable pub use Strings.{contains, any}
unfoldable pub use Maps.{lookup, put, delete}
pub use Maps.{
  lookup-hit, lookup-miss, lookup-put_same, lookup-put_other, lookup-delete_same,
  lookup-delete_other,
}
pub use Strings.{contains_iff, any_iff}
pub use Prim.Native.Nat.{ℕ, zero, suc, ◌+◌, ◌-◌, ◌*◌, ◌/◌, ◌%◌, ◌^◌, ◌≤◌, ◌<◌}
pub use Prim.Native.String.{String}
pub use mathlib.Core.Path.{◌≡◌, refl, sym, ap, ◌∙◌}
pub use mathlib.Core.Logic.{◌≢◌, ◌↔◌, ◌⊎◌, inl, inr}
pub use mathlib.Core.Bool.{Bool, true, false, not, ◌&&◌, ◌||◌}
pub use mathlib.Core.Option.{Option, none, some}
pub use mathlib.Core.List.{List, [], ◌∷◌, ◌++◌, map}
pub use native.Mathlib.Omega.{arith}
pub use text.Mathlib.Text.{◌==◌ as str_eq}
pub use text.Mathlib.TextEquality.{eq_iff}
