-- ===== src/Base.antt =====
-- The names that every module shares: the libraries' names passed on, the tests on numbers, Rust's
-- `Result` with panics, equality as an interface, and byte strings.
mod Tests
mod Outcome
mod Lists
pub mod Equality
pub mod Action
pub mod Bytes
pub mod Codec
pub mod HashMap
pub mod Decimal
pub mod Utf8
pub mod Family
pub use Tests.*
pub use Outcome.*
pub use Lists.*
pub use Prim.Native.Nat.{ℕ, zero, suc, ◌+◌, ◌-◌, ◌*◌, ◌/◌, ◌%◌, ◌^◌, ◌≤◌, ◌<◌}
pub use mathlib.Core.Path.{◌≡◌, refl, sym, ap, ◌∙◌}
pub use mathlib.Core.Logic.{◌≢◌, ◌↔◌, ◌⊎◌, inl, inr}
pub use mathlib.Core.Bool.{Bool, true, false, not, ◌&&◌, ◌||◌}
pub use mathlib.Core.Option.{Option, none, some}
pub use mathlib.Core.List.{List, [], ◌∷◌, ◌++◌, map, append_assoc, append-nil}
pub use native.Mathlib.Omega.{arith}
