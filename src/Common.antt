-- ===== src/Common.antt =====
-- The names that the other modules share: the libraries', passed on, and those of the children.
-- The children model what the TypeScript source takes from its language (tests, lists, text,
-- exceptions, decimal amounts) and the interface to the database that TypeORM provides.
mod Tests
mod Lists
mod Text
mod Exceptions
mod Amounts
pub mod Rows
pub mod Repository
pub use Tests.*
pub use Lists.*
unfoldable pub use Text.{trim, utf16_length, codes, non_empty, trimmed, is_filled}
pub use Text.{utf16_length-codes}
pub use Exceptions.*
pub use Amounts.{Decimal}
unfoldable pub use Amounts.{to_cents, plus, times}
pub use Amounts.{of_cents, to_cents-of_cents}
pub use Prim.Native.Nat.{ℕ, zero, suc, ◌+◌, ◌-◌, ◌*◌, ◌/◌, ◌%◌, ◌^◌, ◌≤◌, ◌<◌, min, max}
pub use Prim.Native.String.{String}
pub use mathlib.Core.Path.{◌≡◌, refl, sym, ap, subst, ◌∙◌}
pub use mathlib.Core.Logic.{◌≢◌, ◌↔◌, ◌⊎◌, inl, inr}
pub use mathlib.Core.Bool.{Bool, true, false, not, ◌&&◌, ◌||◌}
pub use mathlib.Core.Option.{Option, none, some}
pub use mathlib.Core.List.{List, [], ◌∷◌, ◌++◌, map}
pub use native.Mathlib.Omega.{arith}
pub use text.Mathlib.Text.{◌==◌ as str_eq}
pub use text.Mathlib.TextEquality.{eq_iff}
