-- ===== src/Base.antt =====
-- What the other modules share: library names passed on, Boolean tests, lists under native lengths.
mod Tests
mod Lists
pub mod Bits
pub mod Int64
pub mod Bytes
pub mod Exec
pub mod Outcomes
pub mod Text
pub mod Scanner
pub mod Assoc
pub use Tests.*
unfoldable pub use Tests.{bytes_eq, bytes_less}
pub use Lists.*
pub use Prim.Native.Nat.{ℕ, zero, suc, ◌+◌, ◌-◌, ◌*◌, ◌/◌, ◌%◌, ◌^◌, ◌≤◌, ◌<◌}
pub use mathlib.Core.Path.{◌≡◌, refl, sym, ap, ◌∙◌}
pub use mathlib.Core.Logic.{◌≢◌, ◌↔◌, ◌⊎◌, inl, inr}
pub use mathlib.Core.Bool.{Bool, true, false, not, ◌&&◌, ◌||◌}
pub use mathlib.Core.Option.{Option, none, some}
pub use mathlib.Core.List.{List, [], ◌∷◌, ◌++◌, map, append-nil, append_assoc}
pub use native.Mathlib.Omega.{arith}
