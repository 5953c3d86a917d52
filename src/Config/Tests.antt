-- ===== src/Config/Tests.antt =====
-- The configuration theorems at concrete registers.
use native.Mathlib.Omega.{arith}
use rv32_emu.Base.{ℕ, ◌+◌, ◌*◌, ◌<◌, ◌≡◌, ◌≢◌, refl, some, if◌then◌else◌, field, bit}
use rv32_emu.Cop.Tests.{core}
use rv32_emu.Config.Defs.{cfg_offset, ttwrcfg, ttrdcfg, rmwcib_common}
use rv32_emu.Config.Copies.{copy_imm, wide_imm, ttwrcfg-wide, ttrdcfg-ttwrcfg}
use rv32_emu.Config.Masked.{rmwcib_common-bits}

-- Registers 8 to 11 to configuration registers 68 to 71, which hold the packer's output address.
ttwrcfg-wide_example :
    (ttwrcfg core (wide_imm (2 * 4) (17 * 4)) 1).0
    ≡ (ttwrcfg
        (ttwrcfg
          (ttwrcfg
            (ttwrcfg core (copy_imm (2 * 4) (17 * 4)) 1).0
            (copy_imm (2 * 4 + 1) (17 * 4 + 1))
            1).0
          (copy_imm (2 * 4 + 2) (17 * 4 + 2))
          1).0
        (copy_imm (2 * 4 + 3) (17 * 4 + 3))
        1).0
ttwrcfg-wide_example = ttwrcfg-wide core 1 2 17 (omega arith) (omega arith) (omega arith)

-- Register 8 of thread 1 to the seed of the random numbers, and on to register 9 of thread 2.
ttrdcfg-ttwrcfg_example :
    (ttrdcfg (ttwrcfg core (copy_imm 8 186) 1).0 (copy_imm 9 186) 2).0.dma_reg 2 9
    ≡ core.dma_reg 1 8
ttrdcfg-ttwrcfg_example =
    ttrdcfg-ttwrcfg core 1 8 186 2 9 refl (omega arith) (omega arith) (omega arith) (omega arith)

-- The low half of byte 1 of register 72.
rmwcib_common-bits_example :
    (after : ℕ → ℕ) × ((rmwcib_common core 0x0F3548 1).memory.high_mem ≡ some after)
    × ((i : ℕ)
        → i < 8
        → bit (after (cfg_offset (field 0x0F3548 0 8) + 1)) i
          ≡ (if bit (field 0x0F3548 16 8) i then bit (field 0x0F3548 8 8) i else bit 0 i))
    × ((a : ℕ) → a ≢ cfg_offset (field 0x0F3548 0 8) + 1 → after a ≡ 0)
rmwcib_common-bits_example = rmwcib_common-bits core 0x0F3548 1 refl
