-- ===== src/Base/Random.antt =====
-- `rand::Rng`, which the crates only call: `gen_range` over an inclusive range and `fill`.
use Prim.Native.Nat.{ℕ, ◌≤◌}
use mathlib.Core.Path.{◌≡◌}
use mathlib.Core.List.{List}
use reliz_protocol.Base.Lists.{length, All}
use reliz_protocol.Base.Bytes.{IsByte}

-- A number of the range, and as many bytes as the buffer has.
pub record Rng : Type 1 where
  pub State : Type 0
  pub gen_range : ℕ → ℕ → State → ℕ × State
  pub fill : ℕ → State → List ℕ × State
  pub gen_range_bounds :
      (lo hi : ℕ) (s : State)
      → lo ≤ hi
      → (lo ≤ (gen_range lo hi s).0) × ((gen_range lo hi s).0 ≤ hi)
  pub length-fill : (n : ℕ) (s : State) → length (fill n s).0 ≡ n
  pub fill-IsByte : (n : ℕ) (s : State) → All IsByte (fill n s).0
