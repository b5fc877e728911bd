-- ===== src/Base.antt =====
-- Names that the components share: the libraries' numbers, lists and logic, passed on, with
-- Boolean tests, lists under native indices, Go results, and bytes.
mod Tests
mod Lists
mod Calls
mod Bytes
mod Int
mod Recursion
pub use Tests.*
pub use Lists.*
pub use Calls.*
pub use Bytes.*
pub use Int.*
unfoldable pub use Recursion.{lt_wf}
pub use Prim.Native.Nat.{ℕ, zero, suc, ◌+◌, ◌-◌, ◌*◌, ◌/◌, ◌%◌, ◌^◌, ◌≤◌, ◌<◌, min, max}
pub use Prim.Native.Nat.{bit_and, bit_or, bit_xor}
pub use mathlib.Core.Path.{◌≡◌, refl, sym, ap, ◌∙◌}
pub use mathlib.Core.Logic.{◌≢◌, ◌↔◌, ◌⊎◌, inl, inr}
pub use mathlib.Core.Bool.{Bool, true, false, not, ◌&&◌, ◌||◌}
pub use mathlib.Core.Option.{Option, none, some}
pub use mathlib.Core.List.{List, [], ◌∷◌, ◌++◌, map, append-nil, append_assoc}
pub use native.Mathlib.Omega.{arith}
