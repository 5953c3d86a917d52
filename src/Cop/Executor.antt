-- ===== src/Cop/Executor.antt =====
-- What the step functions ask of the instruction executor, `tensix_execute_insn` with the jump
-- table of tt_cop/tt_insn.c behind it.
use rv32_emu.Base.{ℕ, Bool, false, ◌≡◌, ◌≢◌}
use rv32_emu.Cop.State.{Cop}

-- An instruction of thread `t` reaches the other threads through the core only, and leaves its own
-- thread's FIFO alone, and no instruction pending.
pub record Executor (D : Type 0) : Type 0 where
  pub execute : Cop D → ℕ → ℕ → Cop D × Bool
  pub fifo_kept :
      (cop : Cop D) (t insn : ℕ)
      → ((execute cop t insn).0.threads t).insn_fifo ≡ (cop.threads t).insn_fifo
  pub none_pending :
      (cop : Cop D) (t insn : ℕ)
      → (cop.threads t).has_current_insn ≡ false
      → ((execute cop t insn).0.threads t).has_current_insn ≡ false
  pub others_kept :
      (cop : Cop D) (t insn u : ℕ) → u ≢ t → (execute cop t insn).0.threads u ≡ cop.threads u
