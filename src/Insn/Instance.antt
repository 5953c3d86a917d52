-- ===== src/Insn/Instance.antt =====
-- The dispatch to the handlers is an executor as the step functions want it, whatever the data path
-- does.
use rv32_emu.Base.{
  ℕ, ◌≡◌, ◌≢◌, refl, sym, Bool, false, ◌==◌, Bool-cases, inl, inr, update-ne, subst, field, ltb,
}
use rv32_emu.Core.{Core}
use rv32_emu.Floats.{FloatOps}
use rv32_emu.Gate.{insn_opcode, insn_param}
use rv32_emu.Cop.{Cop, Thread, set_thread, mop_expand}
use rv32_emu.Cop.Pending.{set_thread_self}
use rv32_emu.Cop.Executor.{Executor}
use rv32_emu.Insn.Thread.{ttmop, ttmop_cfg}
use rv32_emu.Insn.Dispatch.{execute_insn}

-- What the executor's laws need of the thread: its FIFO, and that it drops what is pending or
-- leaves it.
pub record Kept (th th' : Thread) : Type 0 where
  pub fifo : th'.insn_fifo ≡ th.insn_fifo
  pub pending : th.has_current_insn ≡ false → th'.has_current_insn ≡ false

module _ {D : Type 0} (cop : Cop D) (t imm : ℕ) where
  set-Kept :
      (th : Thread)
      → Kept (cop.threads t) th
      → Kept (cop.threads t) ((set_thread cop t th).threads t)
  set-Kept th k = subst (Kept (cop.threads t)) (sym (set_thread_self cop t th)) k

  ttmop-Kept : Kept (cop.threads t) ((ttmop cop imm t).0.threads t)
  unfolding ttmop mop_expand
  ttmop-Kept = set-Kept _ (record { fifo = refl; pending = λ e. refl })

  ttmop_cfg-Kept : Kept (cop.threads t) ((ttmop_cfg cop imm t).0.threads t)
  unfolding ttmop_cfg
  ttmop_cfg-Kept = elim (Bool-cases (ltb (field imm 20 4) 9)) [
    | inl e ↦ simp e (set-Kept _ (record { fifo = refl; pending = λ p. p }))
    | inr e ↦ elim (Bool-cases (field imm 20 4 == 9)) [
      | inl z ↦ simp (e, z) (set-Kept _ (record { fifo = refl; pending = λ p. p }))
      | inr n ↦ simp (e, n) (set-Kept _ (record { fifo = refl; pending = λ p. p }))
    ]
  ]

  ttmop-others : (u : ℕ) → u ≢ t → (ttmop cop imm t).0.threads u ≡ cop.threads u
  unfolding ttmop mop_expand
  ttmop-others u ne = update-ne cop.threads t u _ ne

  ttmop_cfg-others : (u : ℕ) → u ≢ t → (ttmop_cfg cop imm t).0.threads u ≡ cop.threads u
  unfolding ttmop_cfg
  ttmop_cfg-others u ne = update-ne cop.threads t u _ ne

module _ {D : Type 0} (ops : FloatOps) (datapath : Cop D → ℕ → ℕ → Core D × Bool) where
  -- Whatever the data path does and whatever compares floats, executing an instruction of a
  -- thread leaves its FIFO as it was, and leaves it without a pending instruction if it had
  -- none.
  pub execute-Kept :
      (cop : Cop D) (t insn : ℕ)
      → Kept (cop.threads t) ((execute_insn ops datapath cop t insn).0.threads t)
  unfolding execute_insn
  execute-Kept cop t insn = elim (Bool-cases (insn_opcode insn == 0x01)) [
    | inl mop ↦ simp mop (ttmop-Kept cop t (insn_param insn))
    | inr e ↦ elim (Bool-cases (insn_opcode insn == 0x03)) [
      | inl cfg ↦ simp (e, cfg) (ttmop_cfg-Kept cop t (insn_param insn))
      | inr core ↦ simp (e, core) (record { fifo = refl; pending = λ p. p })
    ]
  ]

  pub execute-others :
      (cop : Cop D) (t insn u : ℕ)
      → u ≢ t
      → (execute_insn ops datapath cop t insn).0.threads u ≡ cop.threads u
  unfolding execute_insn
  execute-others cop t insn u ne = elim (Bool-cases (insn_opcode insn == 0x01)) [
    | inl mop ↦ simp mop (ttmop-others cop t (insn_param insn) u ne)
    | inr e ↦ elim (Bool-cases (insn_opcode insn == 0x03)) [
      | inl cfg ↦ simp (e, cfg) (ttmop_cfg-others cop t (insn_param insn) u ne)
      | inr core ↦ simp (e, core) refl
    ]
  ]

  abbrev pub executor : Executor D
  executor = record {
    execute = execute_insn ops datapath;
    fifo_kept = λ cop t insn. (execute-Kept cop t insn).fifo;
    none_pending = λ cop t insn. (execute-Kept cop t insn).pending;
    others_kept = execute-others;
  }
