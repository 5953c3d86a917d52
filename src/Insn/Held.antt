-- ===== src/Insn/Held.antt =====
-- An instruction that does not complete changes nothing, so that the step may try it again.
use rv32_emu.Base.{
  ℕ, ◌≡◌, ◌≢◌, refl, ap, Bool, true, false, ◌||◌, ◌==◌, if◌then◌else◌, Bool-cases, inl, inr, arith,
  leb, field,
}
use rv32_emu.Core.{Core}
use rv32_emu.Floats.{FloatOps}
use rv32_emu.Sfpu.{sfpload, sfpstore}
use rv32_emu.Insn.Compute.{execute_sfpu, execute_matrix}
use rv32_emu.Insn.Dispatch.{execute_config, execute_counters, execute_core, execute_insn}
use rv32_emu.Matrix.{
  ttmovd2a, ttmovd2b, ttmovb2a, ttzeroacc, ttzerosrc, ttmova2d, ttmovb2d, tttrnspsrcb, ttmvmul,
  ttelwmul, ttelwadd, ttelwsub, ttgmpool, ttgapool, ttunpacr_nop, unpacr_zerosrc,
}
use rv32_emu.Insn.Sync.{ttatgetm, ttatrelm, ttseminit, ttsempost, ttsemget}
use rv32_emu.Insn.Banks.{ttsetdvalid, ttcleardvalid, ttsetrwc, ttincrwc}
use rv32_emu.Insn.Dma.{
  ttsetdmareg, ttadddmareg, ttsubdmareg, ttmuldmareg, ttbitwopdmareg, ttshiftdmareg, ttcmpdmareg,
}
use rv32_emu.Insn.Thread.{ttmop_cfg, ttmop, ttreplay}
use rv32_emu.Config.{ttwrcfg, ttrdcfg, ttsetc16, ttcfgshiftmask, ttstorereg, ttloadreg}
use rv32_emu.Counters.{
  ttsetadc, ttsetadcxx, ttsetadcxy, ttincadcxy, ttaddrcrxy, ttsetadczw, ttincadczw, ttaddrcrzw,
}
use rv32_emu.Cop.{Cop}
use rv32_emu.Gate.{insn_opcode, insn_param}

-- A handler's result that says that it is not done leaves the core.
Held : {D : Type 0} → Core D → Core D × Bool → Type 0
Held core p = p.1 ≡ false → p.0 ≡ core

if-Held :
    {D : Type 0} (core : Core D) (b : Bool) (p q : Core D × Bool)
    → Held core p
    → Held core q
    → Held core (if b then p else q)
if-Held core true p q h k = h
if-Held core false p q h k = k

done-Held : {D : Type 0} (core next : Core D) → Held core (next, true)
unfolding Held
done-Held core next e = absurd (cc e)

wait-Held : {D : Type 0} (core : Core D) → Held core (core, false)
unfolding Held
wait-Held core e = refl

module _ {D : Type 0} (core : Core D) (tid opcode imm : ℕ) (other : Core D × Bool)
    (h : Held core other) where
  execute_sfpu-Held : (ops : FloatOps) → Held core (execute_sfpu core tid opcode imm other ops)
  unfolding execute_sfpu sfpload sfpstore
  execute_sfpu-Held ops = search (if-Held, done-Held, h) depth 60 fits 5000

  execute_matrix-Held :
      (ops : FloatOps) (low_fidelity : Bool)
      → Held core (execute_matrix core tid opcode imm other ops low_fidelity)
  unfolding execute_matrix ttmovd2a ttmovd2b ttmovb2a ttzeroacc ttzerosrc ttmova2d ttmovb2d
      tttrnspsrcb ttmvmul ttelwmul ttelwadd ttelwsub ttgmpool ttgapool ttunpacr_nop unpacr_zerosrc
  execute_matrix-Held ops low_fidelity =
      search (if-Held, done-Held, wait-Held, h) depth 60 fits 5000

  execute_counters-Held : Held core (execute_counters core tid opcode imm other)
  unfolding execute_counters ttsetadc ttsetadcxx ttsetadcxy ttincadcxy ttaddrcrxy ttsetadczw
      ttincadczw ttaddrcrzw
  execute_counters-Held = search (if-Held, done-Held, h) depth 60 fits 5000

  execute_config-Held : Held core (execute_config core tid opcode imm other)
  unfolding execute_config ttwrcfg ttrdcfg ttsetc16 ttcfgshiftmask ttstorereg ttloadreg
  execute_config-Held = search (if-Held, done-Held, h) depth 60 fits 5000

module _ {D : Type 0} (ops : FloatOps) (datapath : Cop D → ℕ → ℕ → Core D × Bool) where
  execute_core-Held :
      (cop : Cop D) (tid insn opcode imm : ℕ)
      → opcode ≢ 0x41
      → opcode ≢ 0x42
      → Held cop.core (execute_core ops datapath cop tid insn opcode imm)
  unfolding execute_core ttatgetm ttatrelm ttseminit ttsempost ttsemget ttsetdvalid ttcleardvalid
      ttsetrwc ttincrwc ttreplay ttsetdmareg ttadddmareg ttsubdmareg ttmuldmareg ttbitwopdmareg
      ttshiftdmareg ttcmpdmareg
  execute_core-Held cop tid insn opcode imm no_pacr no_unpacr =
      let plain : (opcode == 0x41 || opcode == 0x42) ≡ false = ground arith in
      let core : Core D = cop.core in
      let fidelity : Bool = leb (field ((cop.threads tid).mop_cfg 1) 0 7) 2 in
      let matrix =
        execute_matrix-Held core tid opcode imm (core, true) (done-Held core core) ops fidelity in
      let sfpu = execute_sfpu-Held core tid opcode imm _ matrix ops in
      let counters = execute_counters-Held core tid opcode imm _ sfpu in
      let config = execute_config-Held core tid opcode imm _ counters in
      rw plain (search (if-Held, done-Held, wait-Held, config) depth 60 fits 5000)

  -- Executing an instruction other than PACR and UNPACR of any thread, if it reports that it is
  -- not done, leaves the whole coprocessor as it was, so that the step may try it again.
  pub execute_insn-Held :
      (cop : Cop D) (tid insn : ℕ)
      → insn_opcode insn ≢ 0x41
      → insn_opcode insn ≢ 0x42
      → (execute_insn ops datapath cop tid insn).1 ≡ false
      → (execute_insn ops datapath cop tid insn).0 ≡ cop
  unfolding execute_insn ttmop ttmop_cfg Held
  execute_insn-Held cop tid insn no_pacr no_unpacr = elim (Bool-cases (insn_opcode insn == 0x01)) [
    | inl mop ↦ rw mop (λ q. absurd (cc q))
    | inr e ↦ elim (Bool-cases (insn_opcode insn == 0x03)) [
      | inl cfg ↦ rw (e, cfg) (λ q. absurd (cc q))
      | inr f ↦
          rw (e, f)
            (λ q.
              ap (λ (c : Core D). record cop { core = c })
                (execute_core-Held cop tid insn (insn_opcode insn) (insn_param insn) no_pacr
                  no_unpacr q))
    ]
  ]
