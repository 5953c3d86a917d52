-- ===== src/Config/Defs.antt =====
-- The configuration space of tensix.h, and WRCFG, RDCFG, SETC16, RMWCIB and CFGSHIFTMASK of
-- tt_insn.c. A handler returns the new core and the Boolean of the C function. Messages
-- are left out.
use rv32_emu.Base.{
  ℕ, ◌+◌, ◌-◌, ◌*◌, ◌/◌, ◌%◌, ◌^◌, Bool, true, ◌&&◌, none, some, ◌==◌, ltb, if◌then◌else◌, update,
  field, u32, bit_and, bit_or, bit_xor,
}
use rv32_emu.Base.Memory.{load32, store32}
use rv32_emu.Core.{Core, Memory}

abbrev pub thd_reg_count : ℕ
thd_reg_count = 57

abbrev pub dma_reg_count : ℕ
dma_reg_count = 64

abbrev pub cfg_state_regs : ℕ
cfg_state_regs = 56 * 4

abbrev pub cfg_reg_count : ℕ
cfg_reg_count = cfg_state_regs * 2

abbrev pub tensix_cfg_offset_in_high_mem : ℕ
tensix_cfg_offset_in_high_mem = 0x3F0000

-- The offset in high memory of a configuration register.
abbrev pub cfg_offset : ℕ → ℕ
cfg_offset reg_idx = tensix_cfg_offset_in_high_mem + reg_idx * 4

unfoldable pub read_cfg : Memory → ℕ → ℕ
read_cfg mem reg_idx = elim mem.high_mem [
  | none ↦ 0
  | some high ↦ if ltb reg_idx cfg_reg_count then load32 high (cfg_offset reg_idx) else 0
]

unfoldable pub write_cfg : Memory → ℕ → ℕ → Memory
write_cfg mem reg_idx value = elim mem.high_mem [
  | none ↦ mem
  | some high ↦
      if ltb reg_idx cfg_reg_count
      then record mem { high_mem = some (store32 high (cfg_offset reg_idx) value) }
      else mem
]

-- The complement of a word, and a word rotated to the right. For an amount of 0 the C code shifts
-- left by 32, which is undefined; the disjunction gives `v` where that shift gives 0 or `v`.
abbrev pub not32 : ℕ → ℕ
not32 v = 2 ^ 32 - 1 - v

unfoldable pub rotr32 : ℕ → ℕ → ℕ
rotr32 v n = let k = n % 32 in if k == 0 then v else bit_or (v / 2 ^ k) (u32 (v * 2 ^ (32 - k)))

-- What CFGSHIFTMASK makes of the register and the rotated scratch value.
unfoldable pub combine : ℕ → ℕ → ℕ → ℕ
combine alu_mode cfg scratch =
    if alu_mode == 0
    then bit_or cfg scratch
    else if alu_mode == 1
    then bit_and cfg scratch
    else if alu_mode == 2
    then bit_xor cfg scratch
    else if alu_mode == 3
    then u32 (cfg + scratch)
    else if alu_mode == 4
    then bit_or cfg (not32 scratch)
    else if alu_mode == 5
    then bit_and cfg (not32 scratch)
    else if alu_mode == 6
    then bit_xor cfg (not32 scratch)
    else u32 (cfg + 2 ^ 32 - scratch)

-- The new value of a masked byte: `(new_value & mask) | (old_byte & ~mask)`, as a byte.
unfoldable pub merge_byte : ℕ → ℕ → ℕ → ℕ
merge_byte mask new_value old_byte =
    bit_or (bit_and new_value mask) (bit_and old_byte (2 ^ 8 - 1 - mask))

module _ {D : Type 0} where
  abbrev pub set_memory : Core D → Memory → Core D
  set_memory core mem = record core { memory = mem }

  -- A register of the thread copied to the configuration; a new address of the packer's output
  -- starts it from its beginning.
  unfoldable pub copy_cfg : Core D → ℕ → ℕ → ℕ → Core D
  unfolding write_cfg
  copy_cfg core tid cfg_index gpr =
      if ltb cfg_index cfg_reg_count && ltb gpr dma_reg_count
      then record core {
        memory = write_cfg core.memory cfg_index (core.dma_reg tid gpr);
        pack_l1_write_offset = if cfg_index == 69 then 0 else core.pack_l1_write_offset;
      }
      else core

  -- One seed for each of the 32 lanes.
  abbrev pub seed_prng : Core D → ℕ → Core D
  seed_prng core value = record core {
    sfpu = record core.sfpu {
      prng_state = λ lane. if ltb lane 32 then u32 (value + lane) else core.sfpu.prng_state lane;
    };
  }

  unfoldable pub ttwrcfg : Core D → ℕ → ℕ → Core D × Bool
  unfolding copy_cfg
  ttwrcfg core imm tid =
      let gpr_addr = field imm 16 6 in
      let cfg_index = field imm 0 15 in
      let cfg_base = cfg_index / 4 * 4 in
      let gpr_base = gpr_addr / 4 * 4 in
      (
        if field imm 15 1 == 1
            then copy_cfg
                (copy_cfg
                  (copy_cfg (copy_cfg core tid cfg_base gpr_base) tid (cfg_base + 1) (gpr_base + 1))
                  tid (cfg_base + 2) (gpr_base + 2))
                tid (cfg_base + 3) (gpr_base + 3)
            else if cfg_index == 186
            then seed_prng (copy_cfg core tid cfg_index gpr_addr) (core.dma_reg tid gpr_addr)
            else copy_cfg core tid cfg_index gpr_addr,
        true,
      )

  -- One register of a thread.
  abbrev pub set_reg : Core D → ℕ → ℕ → ℕ → Core D
  set_reg core tid r value = record core {
    dma_reg = update core.dma_reg tid (update (core.dma_reg tid) r value);
  }

  unfoldable pub ttrdcfg : Core D → ℕ → ℕ → Core D × Bool
  unfolding read_cfg
  ttrdcfg core imm tid =
      let gpr_addr = field imm 16 6 in
      let cfg_index = field imm 0 16 in
      (
        if ltb cfg_index cfg_reg_count && ltb gpr_addr dma_reg_count
            then set_reg core tid gpr_addr (read_cfg core.memory cfg_index)
            else core,
        true,
      )

  unfoldable pub ttsetc16 : Core D → ℕ → ℕ → Core D × Bool
  ttsetc16 core imm tid =
      let cfg_index = field imm 16 8 in
      (
        if ltb cfg_index thd_reg_count
            then record core {
              thd_reg =
                  update core.thd_reg tid (update (core.thd_reg tid) cfg_index (field imm 0 16));
            }
            else core,
        true,
      )

  -- The four instructions differ in the byte of the register that they change.
  unfoldable pub rmwcib_common : Core D → ℕ → ℕ → Core D
  unfolding merge_byte
  rmwcib_common core imm byte_offset =
      let index4 = field imm 0 8 in
      if ltb index4 cfg_reg_count
      then elim core.memory.high_mem [
        | none ↦ core
        | some high ↦
            let at = cfg_offset index4 + byte_offset in
            record core {
              memory = record core.memory {
                high_mem =
                    some (update high at (merge_byte (field imm 16 8) (field imm 8 8) (high at)));
              };
              pack_l1_write_offset = if index4 == 69 then 0 else core.pack_l1_write_offset;
            }
      ]
      else core

  abbrev pub ttrmwcib : ℕ → Core D → ℕ → ℕ → Core D × Bool
  ttrmwcib byte_offset core imm tid = (rmwcib_common core imm byte_offset, true)

  unfoldable pub ttcfgshiftmask : Core D → ℕ → ℕ → Core D × Bool
  unfolding read_cfg write_cfg rotr32 combine
  ttcfgshiftmask core imm tid =
      let cfg_index = field imm 0 8 in
      let scratch_sel = field imm 8 2 in
      let scratch_reg = 209 + (if ltb scratch_sel 3 then scratch_sel else tid) in
      let mask = u32 (u32 (2 * 2 ^ field imm 15 5) + 2 ^ 32 - 1) in
      let rotate_amt = field imm 10 5 in
      let scratch_val = rotr32 (bit_and (read_cfg core.memory scratch_reg) mask) rotate_amt in
      let cfg_actual = cfg_index + core.thd_reg tid 0 % 2 * cfg_state_regs in
      let cfg_val = read_cfg core.memory cfg_actual in
      let kept =
        if field imm 23 1 == 0 then bit_and cfg_val (not32 (rotr32 mask rotate_amt)) else cfg_val in
      (
        if ltb cfg_index cfg_state_regs
            then set_memory core
                (write_cfg core.memory cfg_actual (combine (field imm 20 3) kept scratch_val))
            else core,
        true,
      )
