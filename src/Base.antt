-- ===== src/Base.antt =====
-- The names that the other modules share: the libraries', passed on, and those of the children.
mod Bools
mod Lists
mod Strings
mod Int
mod Order
mod Errors
mod Sort
pub use Bools.*
pub use Lists.*
pub use Strings.*
pub use Int.*
pub use Errors.*
pub use Sort.*
unfoldable pub use Int.{neg_i64, wrap_i64, double_i64}
unfoldable pub use Order.{lt_wf}
unfoldable pub use Strings.{text_eq}
unfoldable pub use Sort.{sort_by, insert_by}
pub use Prim.Native.Nat.{ℕ, zero, suc, ◌+◌, ◌-◌, ◌*◌, ◌/◌, ◌%◌, ◌^◌, ◌≤◌, ◌<◌}
pub use mathlib.Core.Path.{◌≡◌, refl, sym, ap, ap₂, ◌∙◌, fun_ext}
pub use mathlib.Core.Logic.{◌≢◌, ◌↔◌, ◌⊎◌, inl, inr}
pub use mathlib.Core.Bool.{Bool, true, false, not, ◌&&◌, ◌||◌}
pub use mathlib.Core.Option.{Option, none, some}
pub use mathlib.Core.List.{List, [], ◌∷◌, ◌++◌, map, append-nil, append_assoc}
pub use native.Mathlib.Omega.{arith}
