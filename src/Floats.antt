-- ===== src/Floats.antt =====
-- The arithmetic of C's `float` and the library functions on it that tt_cop/tt_insn.c uses, on the
-- bit patterns. Which numbers they give is up to the compiler and the machine: the operations are a
-- parameter of the instructions that use them, and no law of theirs is assumed.
use rv32_emu.Base.{ℕ, Bool}

pub record FloatOps : Type 0 where
  pub add : ℕ → ℕ → ℕ
  pub sub : ℕ → ℕ → ℕ
  pub mul : ℕ → ℕ → ℕ
  pub neg : ℕ → ℕ
  pub greater : ℕ → ℕ → Bool
  pub fabs : ℕ → ℕ
  pub copysign : ℕ → ℕ → ℕ
  pub of_unsigned : ℕ → ℕ
