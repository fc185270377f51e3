-- ===== src/Common/Double.antt =====
-- The arithmetic of `double` that the code uses, with its literals by their text. It is the compiler's
-- and the processor's, and a parameter of the definitions that use it. An `int64_t` is the number below
-- 2 ^ 64 with its bits, and so is a size, and an `int` is that below 2 ^ 32.
use Prim.Native.String.{String}
use Prim.Native.Nat.{ℕ}
use mathlib.Core.Bool.{Bool}

pub record Double : Type 1 where
  pub F : Type 0
  pub literal : String → F
  pub of_int64 : ℕ → F
  pub to_int64 : F → ℕ
  pub of_int : ℕ → F
  pub to_int : F → ℕ
  pub plus : F → F → F
  pub minus : F → F → F
  pub times : F → F → F
  pub over : F → F → F
  pub abs : F → F
  pub less : F → F → Bool
  pub at_least : F → F → Bool
