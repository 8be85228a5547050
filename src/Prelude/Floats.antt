-- ===== src/Prelude/Floats.antt =====
-- `f64`, as an abstract type with the operations that the program uses.
use Prim.Native.Nat.{ℕ}
use mathlib.Core.Bool.{Bool}

pub record Float64 (F : Type 0) : Type 0 where
  pub of_u64 : ℕ → F
  pub div : F → F → F
  pub ge : F → F → Bool
