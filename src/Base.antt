-- ===== src/Base.antt =====
-- The names that the other modules share: the libraries' names, passed on, and the helpers of
-- its children (Boolean tests, lists over the native numbers, machine words, decimal text,
-- C strings and byte arrays).
mod Tests
mod Lists
mod Words
mod Decimal
mod Memory
pub use Tests.*
pub use Lists.*
unfoldable pub use Words.*
unfoldable pub use Decimal.*
unfoldable pub use Memory.*
pub use Prim.Native.Nat.{ℕ, zero, suc, ◌+◌, ◌-◌, ◌*◌, ◌/◌, ◌%◌, ◌^◌, ◌≤◌, ◌<◌, min}
pub use mathlib.Core.Path.{◌≡◌, refl, sym, ap, ◌∙◌}
pub use mathlib.Core.Logic.{◌≢◌, ◌↔◌, ◌⊎◌, inl, inr}
pub use mathlib.Core.Bool.{Bool, true, false, not, ◌&&◌, ◌||◌}
pub use mathlib.Core.Option.{Option, none, some}
pub use mathlib.Core.List.{List, [], ◌∷◌, ◌++◌, map, append-nil, append_assoc}
pub use native.Mathlib.Omega.{arith}
