-- ===== src/Insn/Dispatch.antt =====
-- `tensix_execute_insn`: the opcode picks the handler. The unpackers' UNPACR and the packer's PACR
-- are one function `datapath`, which sees the whole coprocessor and changes the core alone, as those
-- handlers do; the slots that have no handler, or one that only reports, complete and change nothing.
use rv32_emu.Base.{ℕ, Bool, true, ◌==◌, ◌||◌, leb, field, if◌then◌else◌}
use rv32_emu.Core.{Core}
use rv32_emu.Gate.{insn_opcode, insn_param}
use rv32_emu.Cop.{Cop}
use rv32_emu.Insn.Sync.{ttatgetm, ttatrelm, ttseminit, ttsempost, ttsemget}
use rv32_emu.Insn.Banks.{ttsetdvalid, ttcleardvalid, ttsetrwc, ttincrwc}
use rv32_emu.Insn.Dma.{
  ttsetdmareg, ttadddmareg, ttsubdmareg, ttmuldmareg, ttbitwopdmareg, ttshiftdmareg, ttcmpdmareg,
}
use rv32_emu.Insn.Thread.{ttmop_cfg, ttmop, ttreplay}
use rv32_emu.Config.{ttwrcfg, ttrdcfg, ttsetc16, ttrmwcib, ttcfgshiftmask, ttstorereg, ttloadreg}
use rv32_emu.Counters.{
  ttsetadc, ttsetadcxx, ttsetadcxy, ttincadcxy, ttaddrcrxy, ttsetadczw, ttincadczw, ttaddrcrzw,
}
use rv32_emu.Insn.Compute.{execute_sfpu, execute_matrix}
use rv32_emu.Floats.{FloatOps}

-- The rows 0xB0, 0x50 and 0x60 of the table: configuration, address counters, and the scalar
-- registers' memory accesses. `other` is what the remaining handlers make of the core.
module _ {D : Type 0} (core : Core D) (tid opcode imm : ℕ) (other : Core D × Bool) where
  unfoldable pub execute_config : Core D × Bool
  unfolding ttwrcfg ttrdcfg ttsetc16 ttcfgshiftmask ttstorereg ttloadreg
  execute_config =
      if opcode == 0x67
      then ttstorereg core imm tid
      else if opcode == 0x68
      then ttloadreg core imm tid
      else if opcode == 0xB0
      then ttwrcfg core imm tid
      else if opcode == 0xB1
      then ttrdcfg core imm tid
      else if opcode == 0xB2
      then ttsetc16 core imm tid
      else if opcode == 0xB3
      then ttrmwcib 0 core imm tid
      else if opcode == 0xB4
      then ttrmwcib 1 core imm tid
      else if opcode == 0xB5
      then ttrmwcib 2 core imm tid
      else if opcode == 0xB6
      then ttrmwcib 3 core imm tid
      else if opcode == 0xB8
      then ttcfgshiftmask core imm tid
      else other

  unfoldable pub execute_counters : Core D × Bool
  unfolding ttsetadc ttsetadcxx ttsetadcxy ttincadcxy ttaddrcrxy ttsetadczw ttincadczw ttaddrcrzw
  execute_counters =
      if opcode == 0x50
      then ttsetadc core imm tid
      else if opcode == 0x51
      then ttsetadcxy core imm tid
      else if opcode == 0x52
      then ttincadcxy core imm tid
      else if opcode == 0x53
      then ttaddrcrxy core imm tid
      else if opcode == 0x54
      then ttsetadczw core imm tid
      else if opcode == 0x55
      then ttincadczw core imm tid
      else if opcode == 0x56
      then ttaddrcrzw core imm tid
      else if opcode == 0x5E
      then ttsetadcxx core imm tid
      else other

module _ {D : Type 0} (ops : FloatOps) (datapath : Cop D → ℕ → ℕ → Core D × Bool) where
  -- A handler of the core, on the coprocessor.
  abbrev on_core : Cop D → Core D × Bool → Cop D × Bool
  on_core cop (core, ok) = (record cop { core = core }, ok)

  -- The handler of each opcode that changes the core.
  unfoldable pub execute_core : Cop D → ℕ → ℕ → ℕ → ℕ → Core D × Bool
  unfolding ttatgetm ttatrelm ttseminit ttsempost ttsemget ttsetdvalid ttcleardvalid ttsetrwc
      ttincrwc ttreplay ttsetdmareg ttadddmareg ttsubdmareg ttmuldmareg ttbitwopdmareg ttshiftdmareg
      ttcmpdmareg execute_config execute_counters execute_sfpu execute_matrix
  execute_core cop tid insn opcode imm =
      let core = cop.core in
      if opcode == 0x02
      then (core, true)
      else if opcode == 0x04
      then ttreplay core imm tid
      else if opcode == 0x36
      then ttcleardvalid core imm tid
      else if opcode == 0x37
      then ttsetrwc core imm tid
      else if opcode == 0x38
      then ttincrwc core imm tid
      else if opcode == 0x45
      then ttsetdmareg core imm tid
      else if opcode == 0x58
      then ttadddmareg core imm tid
      else if opcode == 0x59
      then ttsubdmareg core imm tid
      else if opcode == 0x5A
      then ttmuldmareg core imm tid
      else if opcode == 0x5B
      then ttbitwopdmareg core imm tid
      else if opcode == 0x5C
      then ttshiftdmareg core imm tid
      else if opcode == 0x5D
      then ttcmpdmareg core imm tid
      else if opcode == 0x57
      then ttsetdvalid core imm tid
      else if opcode == 0xA0
      then ttatgetm core imm tid
      else if opcode == 0xA1
      then ttatrelm core imm tid
      else if opcode == 0xA3
      then ttseminit core imm tid
      else if opcode == 0xA4
      then ttsempost core imm tid
      else if opcode == 0xA5
      then ttsemget core imm tid
      else execute_config core tid opcode imm (
          execute_counters core tid opcode imm (
            execute_sfpu core tid opcode imm
              (execute_matrix core tid opcode imm
                (if opcode == 0x41 || opcode == 0x42 then datapath cop tid insn else (core, true))
                ops (leb (field ((cop.threads tid).mop_cfg 1) 0 7) 2))
              ops))

  unfoldable pub execute_insn : Cop D → ℕ → ℕ → Cop D × Bool
  unfolding execute_core ttmop_cfg ttmop
  execute_insn cop tid insn =
      let opcode = insn_opcode insn in
      let imm = insn_param insn in
      if opcode == 0x01
      then ttmop cop imm tid
      else if opcode == 0x03
      then ttmop_cfg cop imm tid
      else on_core cop (execute_core cop tid insn opcode imm)
