-- ===== src/Cop/Guards.antt =====
-- What holds an instruction back, and what lets it run: each step of a thread, against the gate and
-- the owners of the banks.
use rv32_emu.Base.{ℕ, ◌≡◌, ◌≢◌, Bool, true, false}
use rv32_emu.Core.{Core}
use rv32_emu.Fifo.Refine
use rv32_emu.Gate
use rv32_emu.Gate.{Gate}
use rv32_emu.Gate.Units.{waits}
use rv32_emu.Cop.State.{Cop}
use rv32_emu.Cop.Executor.{Executor}
use rv32_emu.Cop.Ready.{Ready, Passes}
use rv32_emu.Cop.Trace.{Opened}

module _ {D : Type 0} (ex : Executor D) (t : ℕ) where
  -- A step that ran nothing and left the core.
  pub record HeldBack (core : Core D) (r : Cop D × Bool) : Type 0 where
    pub not_run : r.1 ≡ false
    pub core_same : r.0.core ≡ core

  -- What becomes of the instruction that thread `t` takes up over this core, behind this gate.
  pub data Guarded (core : Core D) (gate : Gate) (insn : ℕ) (r : Cop D × Bool) : Type 0 where
    at_gate :
        Gate.insn_opcode insn ≢ 0x03
        → ¬ Passes gate (Gate.insn_opcode insn) core.banks core.syncs
        → HeldBack core r
        → (r.0.threads t).wait_gate ≡ gate
        → Guarded core gate insn r
    for_operands :
        Gate.insn_opcode insn ≢ 0x03
        → Passes gate (Gate.insn_opcode insn) core.banks core.syncs
        → waits (Gate.insn_opcode insn) ≡ false
        → ¬ Ready core.banks insn
        → HeldBack core r
        → Opened core.banks core.syncs gate (r.0.threads t).wait_gate
        → Guarded core gate insn r
    configures : Gate.insn_opcode insn ≡ 0x03 → r.1 ≡ true → Guarded core gate insn r
    latches :
        Passes gate (Gate.insn_opcode insn) core.banks core.syncs
        → waits (Gate.insn_opcode insn) ≡ true
        → r.1 ≡ true
        → Guarded core gate insn r
    executes :
        Gate.insn_opcode insn ≢ 0x03
        → Passes gate (Gate.insn_opcode insn) core.banks core.syncs
        → waits (Gate.insn_opcode insn) ≡ false
        → Ready core.banks insn
        → (at : Cop D) → at.core ≡ core
        → r.1 ≡ (ex.execute at t insn).1
        → r.0.core ≡ (ex.execute at t insn).0.core
        → Guarded core gate insn r
