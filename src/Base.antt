-- ===== src/Base.antt =====
-- What the components share: the libraries' names, tests on numbers, lists over the native
-- numbers, the outcome of a Rust call, big-endian words, UTF-8 text and hexadecimal digits.
mod Tests
mod Lists
mod Results
pub mod Bytes
pub mod Io
pub mod Random
pub mod Utf8
pub mod Hex
pub mod Search
pub use Tests.*
unfoldable pub use Lists.*
pub use Results.*
pub use Prim.Native.Nat.{ℕ, zero, suc, ◌+◌, ◌-◌, ◌*◌, ◌/◌, ◌%◌, ◌^◌, ◌≤◌, ◌<◌, min, max}
pub use mathlib.Core.Path.{◌≡◌, refl, sym, ap, ◌∙◌, subst}
pub use mathlib.Core.Logic.{◌≢◌, ◌↔◌, ◌⊎◌, inl, inr}
pub use mathlib.Core.Bool.{Bool, true, false, not, ◌&&◌, ◌||◌}
pub use mathlib.Core.Option.{Option, none, some}
pub use mathlib.Core.List.{List, [], ◌∷◌, ◌++◌, append-nil, append_assoc}
pub use native.Mathlib.Omega.{arith}
