-- ===== src/Matrix/Handover.antt =====
-- The instructions of the matrix unit that compute on both operands, and the banks they hand back.
use rv32_emu.Base.{
  field, ℕ, zero, suc, ◌<◌, ◌≡◌, ◌≢◌, refl, ◌∙◌, Bool, true, false, not, ◌&&◌, update-ne, bit,
  arith, Bool-cases, inl, inr, ltb, if◌then◌else◌,
}
use rv32_emu.Core.{Core, Banks}
use rv32_emu.Floats.{FloatOps}
use rv32_emu.Counters.{apply_addr_mod}
use rv32_emu.Insn.Banks.{free_srcb, other_bank}
use rv32_emu.Insn.Handover.{InStep, IsInStep, free-InStep, when-IsInStep}
use rv32_emu.Matrix.Math.{computed, flip, owns_both, on_block}
use rv32_emu.Matrix.Products.{multiplied, skip_zeroed, ttmvmul}
use rv32_emu.Matrix.Elementwise.{Elementwise, run, run-on_block}

pub apply_addr_mod-banks :
    {D : Type 0} (core : Core D) (mode tid : ℕ) → (apply_addr_mod core mode tid).banks ≡ core.banks
unfolding apply_addr_mod
apply_addr_mod-banks core mode tid = elim (Bool-cases (ltb mode 8)) [
  | inl e ↦ rw e refl
  | inr e ↦ rw e refl
]

-- Banks that are in step, with the matrix unit's of both operands its own.
record Ready (b : Banks) : Type 0 where
  in_step : IsInStep b
  owns_a : b.srca_dvalid b.math_srca_bank ≡ true
  owns_b : b.srcb_dvalid b.math_srcb_bank ≡ true

flip-IsInStep : (imm : ℕ) (b : Banks) → Ready b → IsInStep (flip imm b)
flip-IsInStep imm b h =
    let a_free : InStep _ _ _ = free-InStep _ _ _ h.in_step.srca h.owns_a in
    let b_free : InStep _ _ _ = free-InStep _ _ _ h.in_step.srcb h.owns_b in
    elim (Bool-cases (bit imm 22)) [
      | inl a ↦ simp a (
          when-IsInStep (bit imm 23) free_srcb _ (record { srca = a_free; srcb = h.in_step.srcb })
            (record { srca = a_free; srcb = b_free }))
      | inr no_a ↦ simp no_a (
          when-IsInStep (bit imm 23) free_srcb _ h.in_step
            (record { srca = h.in_step.srca; srcb = b_free }))
    ]

other_bank-ne : (b : ℕ) → b < 2 → other_bank b ≢ b
other_bank-ne zero h = omega arith
other_bank-ne (suc zero) h = omega arith
other_bank-ne (suc (suc b)) h = absurd (omega arith)

skip_zeroed-Ready : (b : Banks) → Ready b → Ready (skip_zeroed b)
unfolding skip_zeroed
skip_zeroed-Ready b h =
    let other : ℕ = other_bank b.math_srcb_bank in
    let ne : other ≢ b.math_srcb_bank = other_bank-ne b.math_srcb_bank h.in_step.srcb.math_lt in
    elim (Bool-cases
      (b.srcb_zeroed b.math_srcb_bank && (b.srcb_dvalid other && not (b.srcb_zeroed other)))) [
        | inl skips ↦
            let given : b.srcb_dvalid other ≡ true = ground arith in
            rw skips (record {
              in_step = record {
                srca = h.in_step.srca;
                srcb = free-InStep _ _ _ h.in_step.srcb h.owns_b;
              };
              owns_a = h.owns_a;
              owns_b = update-ne b.srcb_dvalid b.math_srcb_bank other false ne ∙ given;
            })
        | inr stays ↦ rw stays h
      ]

-- An instruction that waits for both banks and flips them.
guarded-IsInStep :
    {D : Type 0} (imm : ℕ) (b : Banks) (core done : Core D)
    → IsInStep core.banks
    → (Ready core.banks → Ready b)
    → done.banks ≡ flip imm b
    → IsInStep
        (if◌then◌else◌ {A = Core D × Bool}
          (not (owns_both core.banks))
          (core, false)
          (done, true)).0.banks
guarded-IsInStep imm b core done h ready e = elim (Bool-cases (owns_both core.banks)) [
  | inl owned ↦
      rw (owned, e)
        (flip-IsInStep imm b
          (ready (record { in_step = h; owns_a = ground arith; owns_b = ground arith })))
  | inr waits ↦ rw waits h
]

module _ {D : Type 0} (ops : FloatOps) (core : Core D) (imm tid : ℕ) where
  on_block-IsInStep :
      (f : ℕ → ℕ → ℕ → ℕ) → IsInStep core.banks → IsInStep (on_block f core imm tid).0.banks
  on_block-IsInStep f h =
      let next : Core D = computed f core imm tid in
      guarded-IsInStep imm core.banks core (apply_addr_mod next (field imm 14 3) tid) h (λ r. r)
        (apply_addr_mod-banks next (field imm 14 3) tid)

  -- ELWADD, ELWSUB, ELWMUL and MVMUL, whatever their bits, whether or not they complete and
  -- whether or not a cleared bank of SrcB is skipped, keep the bank numbers of the unpackers and
  -- of the matrix unit in step with who owns which bank.
  pub operands-IsInStep :
      (op : Elementwise) (low_fidelity : Bool)
      → IsInStep core.banks
      → IsInStep (run ops op core imm tid).0.banks
        × IsInStep (ttmvmul ops low_fidelity core imm tid).0.banks
  unfolding ttmvmul
  operands-IsInStep op low_fidelity h = (
    rw (run-on_block ops core imm tid op) (on_block-IsInStep _ h),
    (let next : Core D = multiplied ops low_fidelity core imm tid in
        guarded-IsInStep imm (skip_zeroed core.banks) core
          (apply_addr_mod next (field imm 14 3) tid) h (skip_zeroed-Ready core.banks)
          (apply_addr_mod-banks next (field imm 14 3) tid)),
  )
