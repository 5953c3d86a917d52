-- ===== src/Config/Copies.antt =====
-- Copies between scalar and configuration registers: WRCFG in both widths, and RDCFG.
use rv32_emu.Base.{
  ℕ, ◌+◌, ◌*◌, ◌/◌, ◌^◌, ◌<◌, ◌≡◌, ◌≢◌, refl, ap, ◌∙◌, true, false, ◌==◌, Bool-cases, inl, inr,
  some, ltb, update_self, field, arith,
}
use rv32_emu.Base.Memory.{load32-store32, load32-store32_apart}
use rv32_emu.Core.{Core, Memory}
use rv32_emu.Config.Defs.{
  cfg_reg_count, cfg_offset, read_cfg, write_cfg, copy_cfg, ttwrcfg, ttrdcfg,
}

-- The `imm` of a WRCFG of 32 bits and of an RDCFG, and of a WRCFG of 128 bits.
abbrev pub copy_imm : ℕ → ℕ → ℕ
copy_imm gpr cfg = gpr * 2 ^ 16 + cfg

abbrev pub wide_imm : ℕ → ℕ → ℕ
wide_imm gpr cfg = gpr * 2 ^ 16 + 2 ^ 15 + cfg

module _ (mem : Memory) {high : ℕ → ℕ} (present : mem.high_mem ≡ some high) (i v : ℕ)
    (in_range : i < cfg_reg_count) where
  pub read_cfg-write_cfg : v < 2 ^ 32 → read_cfg (write_cfg mem i v) i ≡ v
  unfolding read_cfg write_cfg
  read_cfg-write_cfg small = ground (arith, present, load32-store32 high (cfg_offset i) v)

  pub read_cfg-write_cfg_ne : (j : ℕ) → j ≢ i → read_cfg (write_cfg mem i v) j ≡ read_cfg mem j
  unfolding read_cfg write_cfg
  read_cfg-write_cfg_ne j ne =
      ground (arith, present, load32-store32_apart high (cfg_offset i) v (cfg_offset j))

module _ {D : Type 0} (core : Core D) (tid : ℕ) where
  narrow :
      (gpr cfg : ℕ)
      → gpr < 64
      → cfg < 2 ^ 15
      → cfg ≢ 186
      → (ttwrcfg core (copy_imm gpr cfg) tid).0 ≡ copy_cfg core tid cfg gpr
  unfolding ttwrcfg
  narrow gpr cfg g c ne =
      let imm : ℕ = copy_imm gpr cfg in
      let reg : field imm 16 6 ≡ gpr = omega arith in
      let index : field imm 0 15 ≡ cfg = omega arith in
      let is_narrow : field imm 15 1 ≡ 0 = omega arith in
      let other : (cfg == 186) ≡ false = ground arith in rw (reg, index, is_narrow, other) refl

  wide :
      (gpr cfg : ℕ)
      → gpr < 16
      → cfg < 2 ^ 13
      → (ttwrcfg core (wide_imm (gpr * 4) (cfg * 4)) tid).0
        ≡ copy_cfg
            (copy_cfg
              (copy_cfg (copy_cfg core tid (cfg * 4) (gpr * 4)) tid (cfg * 4 + 1) (gpr * 4 + 1))
              tid
              (cfg * 4 + 2)
              (gpr * 4 + 2))
            tid
            (cfg * 4 + 3)
            (gpr * 4 + 3)
  unfolding ttwrcfg
  wide gpr cfg g c =
      let imm : ℕ = wide_imm (gpr * 4) (cfg * 4) in
      let reg : field imm 16 6 / 4 * 4 ≡ gpr * 4 = omega arith in
      let index : field imm 0 15 / 4 * 4 ≡ cfg * 4 = omega arith in
      let is_wide : field imm 15 1 ≡ 1 = omega arith in rw (reg, index, is_wide) refl

module _ {D : Type 0} (core : Core D) (tid : ℕ) where
  -- A WRCFG of 128 bits does what the four 32-bit WRCFG instructions of its group of registers
  -- do one after the other, for any group but the one that holds the seed of the random numbers.
  pub ttwrcfg-wide :
      (gpr cfg : ℕ)
      → gpr < 16
      → cfg < 2 ^ 13
      → cfg ≢ 46
      → (ttwrcfg core (wide_imm (gpr * 4) (cfg * 4)) tid).0
        ≡ (ttwrcfg
            (ttwrcfg
              (ttwrcfg
                (ttwrcfg core (copy_imm (gpr * 4) (cfg * 4)) tid).0
                (copy_imm (gpr * 4 + 1) (cfg * 4 + 1))
                tid).0
              (copy_imm (gpr * 4 + 2) (cfg * 4 + 2))
              tid).0
            (copy_imm (gpr * 4 + 3) (cfg * 4 + 3))
            tid).0
  ttwrcfg-wide gpr cfg g c ne =
      let n : ℕ = gpr * 4 in
      let b : ℕ = cfg * 4 in
      let core1 : Core D = copy_cfg core tid b n in
      let core2 : Core D = copy_cfg core1 tid (b + 1) (n + 1) in
      let core3 : Core D = copy_cfg core2 tid (b + 2) (n + 2) in
      rw
        (
          narrow core tid n b (omega arith) (omega arith) (omega arith),
          narrow core1 tid (n + 1) (b + 1) (omega arith) (omega arith) (omega arith),
          narrow core2 tid (n + 2) (b + 2) (omega arith) (omega arith) (omega arith),
          narrow core3 tid (n + 3) (b + 3) (omega arith) (omega arith) (omega arith),
        )
        (wide core tid gpr cfg g c)

  pub ttwrcfg-memory :
      (gpr cfg : ℕ)
      → gpr < 64
      → cfg < cfg_reg_count
      → (ttwrcfg core (copy_imm gpr cfg) tid).0.memory
        ≡ write_cfg core.memory cfg (core.dma_reg tid gpr)
  unfolding ttwrcfg copy_cfg
  ttwrcfg-memory gpr cfg g c =
      let imm : ℕ = copy_imm gpr cfg in
      let reg : field imm 16 6 ≡ gpr = omega arith in
      let index : field imm 0 15 ≡ cfg = omega arith in
      let is_narrow : field imm 15 1 ≡ 0 = omega arith in
      let known : ltb cfg cfg_reg_count ≡ true = ground arith in
      let known' : ltb gpr 64 ≡ true = ground arith in
      rw (reg, index, is_narrow, known, known')
        (elim (Bool-cases (cfg == 186)) [ inl seed ↦ rw seed refl | inr other ↦ rw other refl ])

  pub ttrdcfg-reg :
      (gpr cfg : ℕ)
      → gpr < 64
      → cfg < cfg_reg_count
      → (ttrdcfg core (copy_imm gpr cfg) tid).0.dma_reg tid gpr ≡ read_cfg core.memory cfg
  unfolding ttrdcfg
  ttrdcfg-reg gpr cfg g c =
      let imm : ℕ = copy_imm gpr cfg in
      let reg : field imm 16 6 ≡ gpr = omega arith in
      let index : field imm 0 16 ≡ cfg = omega arith in
      let known : ltb cfg cfg_reg_count ≡ true = ground arith in
      let known' : ltb gpr 64 ≡ true = ground arith in
      rw (reg, index, known, known')
        (ap (λ (regs : ℕ → ℕ). regs gpr) (update_self core.dma_reg tid _)
          ∙ update_self (core.dma_reg tid) gpr (read_cfg core.memory cfg))

-- What a 32-bit WRCFG of a thread writes to a configuration register from a scalar register that
-- holds a 32-bit word, an RDCFG of the same register by any thread reads back, if the
-- configuration memory is there and the numbers are in range.
pub ttrdcfg-ttwrcfg :
    {D : Type 0} (core : Core D) {high : ℕ → ℕ} (tid gpr cfg tid' gpr' : ℕ)
    → core.memory.high_mem ≡ some high
    → gpr < 64
    → gpr' < 64
    → cfg < cfg_reg_count
    → core.dma_reg tid gpr < 2 ^ 32
    → (ttrdcfg (ttwrcfg core (copy_imm gpr cfg) tid).0 (copy_imm gpr' cfg) tid').0.dma_reg tid' gpr'
      ≡ core.dma_reg tid gpr
ttrdcfg-ttwrcfg core tid gpr cfg tid' gpr' present g g' c small =
    ttrdcfg-reg (ttwrcfg core (copy_imm gpr cfg) tid).0 tid' gpr' cfg g' c
    ∙ ap (λ (mem : Memory). read_cfg mem cfg) (ttwrcfg-memory core tid gpr cfg g c)
    ∙ read_cfg-write_cfg core.memory present cfg (core.dma_reg tid gpr) c small
