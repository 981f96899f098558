-- ===== src/Base.antt =====
-- The names that all parts share: the libraries', passed on, and those of the children, which hold
-- Boolean tests, lists under native indices, predicates of lists, 64-bit words and return codes.
mod Tests
mod Lists
mod Every
mod Word
mod Codes
pub use Tests.*
pub use Lists.*
pub use Every.*
pub use Word.*
pub use Codes.*
pub use Prim.Native.Nat.{ℕ, zero, suc, ◌+◌, ◌-◌, ◌*◌, ◌/◌, ◌%◌, ◌^◌, ◌≤◌, ◌<◌}
pub use mathlib.Core.Path.{◌≡◌, refl, sym, ap, ap₂, subst, fun_ext, ◌∙◌}
pub use mathlib.Core.Logic.{◌≢◌, ◌⊎◌, inl, inr}
pub use mathlib.Core.Bool.{Bool, true, false, not, ◌&&◌, ◌||◌}
pub use mathlib.Core.Option.{Option, none, some}
pub use mathlib.Core.List.{List, [], ◌∷◌, ◌++◌}
pub use native.Mathlib.Omega.{arith}
