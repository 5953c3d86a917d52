-- ===== src/Insn/Compute.antt =====
-- The rows of the table for the vector unit and for the matrix unit. `other` is what the remaining
-- handlers make of the core.
use rv32_emu.Base.{ℕ, Bool, ◌==◌, if◌then◌else◌}
use rv32_emu.Core.{Core}
use rv32_emu.Floats.{FloatOps}
use rv32_emu.Sfpu.{
  on_sfpu, sfp_mad_common, sfpabs, sfpaddi, sfpand, sfparecip, sfpcast, sfpcompc, sfpconfig,
  sfpencc, sfpexexp, sfpexman, sfpiadd, sfpload, sfploadi, sfplutfp32, sfpmov, sfpmuli, sfpnot,
  sfpor, sfppopc, sfppushc, sfpsetcc, sfpsetexp, sfpsetsgn, sfpshft, sfpstochrnd, sfpstore, sfpswap,
  sfptransp, sfpxor,
}
use rv32_emu.Matrix.{
  ttmovd2a, ttmovd2b, ttmovb2a, ttzeroacc, ttzerosrc, ttmova2d, ttmovb2d, tttrnspsrcb, ttmvmul,
  ttelwmul, ttelwadd, ttelwsub, ttgmpool, ttgapool, ttunpacr_nop,
}

module _ {D : Type 0} (core : Core D) (tid opcode imm : ℕ) (other : Core D × Bool) where
  -- The rows 0x70 to 0x90.
  unfoldable pub execute_sfpu : FloatOps → Core D × Bool
  execute_sfpu ops =
      if opcode == 0x70
      then sfpload core imm tid
      else if opcode == 0x71
      then on_sfpu sfploadi core imm tid
      else if opcode == 0x72
      then sfpstore core imm tid
      else if opcode == 0x74
      then on_sfpu (sfpmuli ops) core imm tid
      else if opcode == 0x75
      then on_sfpu (sfpaddi ops) core imm tid
      else if opcode == 0x77
      then on_sfpu sfpexexp core imm tid
      else if opcode == 0x78
      then on_sfpu sfpexman core imm tid
      else if opcode == 0x79
      then on_sfpu sfpiadd core imm tid
      else if opcode == 0x7A
      then on_sfpu sfpshft core imm tid
      else if opcode == 0x7B
      then on_sfpu sfpsetcc core imm tid
      else if opcode == 0x7C
      then on_sfpu sfpmov core imm tid
      else if opcode == 0x7D
      then on_sfpu sfpabs core imm tid
      else if opcode == 0x7E
      then on_sfpu sfpand core imm tid
      else if opcode == 0x7F
      then on_sfpu sfpor core imm tid
      else if opcode == 0x80
      then on_sfpu sfpnot core imm tid
      else if opcode == 0x82
      then on_sfpu sfpsetexp core imm tid
      else if opcode == 0x84
      then on_sfpu (sfp_mad_common ops) core imm tid
      else if opcode == 0x85
      then on_sfpu (sfp_mad_common ops) core imm tid
      else if opcode == 0x86
      then on_sfpu (sfp_mad_common ops) core imm tid
      else if opcode == 0x87
      then on_sfpu sfppushc core imm tid
      else if opcode == 0x88
      then on_sfpu sfppopc core imm tid
      else if opcode == 0x89
      then on_sfpu sfpsetsgn core imm tid
      else if opcode == 0x8A
      then on_sfpu sfpencc core imm tid
      else if opcode == 0x8B
      then on_sfpu sfpcompc core imm tid
      else if opcode == 0x8C
      then on_sfpu sfptransp core imm tid
      else if opcode == 0x8D
      then on_sfpu sfpxor core imm tid
      else if opcode == 0x8E
      then on_sfpu sfpstochrnd core imm tid
      else if opcode == 0x90
      then on_sfpu (sfpcast ops) core imm tid
      else if opcode == 0x91
      then on_sfpu sfpconfig core imm tid
      else if opcode == 0x92
      then on_sfpu (sfpswap ops.greater) core imm tid
      else if opcode == 0x95
      then on_sfpu (sfplutfp32 ops) core imm tid
      else if opcode == 0x99
      then on_sfpu sfparecip core imm tid
      else other

  -- The matrix unit's handlers, and UNPACR_NOP. `low_fidelity` is MVMUL's test of the thread's MOP
  -- register.
  unfoldable pub execute_matrix : FloatOps → Bool → Core D × Bool
  execute_matrix ops low_fidelity =
      if opcode == 0x08
      then ttmovd2a core imm tid
      else if opcode == 0x0A
      then ttmovd2b core imm tid
      else if opcode == 0x0B
      then ttmovb2a core imm tid
      else if opcode == 0x10
      then ttzeroacc core imm tid
      else if opcode == 0x11
      then ttzerosrc core imm tid
      else if opcode == 0x12
      then ttmova2d core imm tid
      else if opcode == 0x13
      then ttmovb2d core imm tid
      else if opcode == 0x16
      then tttrnspsrcb core imm tid
      else if opcode == 0x26
      then ttmvmul ops low_fidelity core imm tid
      else if opcode == 0x27
      then ttelwmul ops core imm tid
      else if opcode == 0x28
      then ttelwadd ops core imm tid
      else if opcode == 0x30
      then ttelwsub ops core imm tid
      else if opcode == 0x33
      then ttgmpool ops core imm tid
      else if opcode == 0x34
      then ttgapool ops core imm tid
      else if opcode == 0x43
      then ttunpacr_nop core imm tid
      else other
