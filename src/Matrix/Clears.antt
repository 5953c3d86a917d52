-- ===== src/Matrix/Clears.antt =====
-- Rows cleared: ZEROACC, ZEROSRC and UNPACR_NOP. A handler returns the new core and the Boolean of
-- the C function.
use rv32_emu.Base.{
  ℕ, ◌+◌, ◌*◌, ◌/◌, Bool, true, false, not, ◌||◌, ◌==◌, ltb, if◌then◌else◌, update, field, bit, u32,
}
use rv32_emu.Core.{Core}
use rv32_emu.Insn.Banks.{when, give_srca, give_srcb, set_banks}
use rv32_emu.Matrix.Grid.{Grid, each, write_row, write_rows}
use rv32_emu.Matrix.Moves.{dest_rows}

abbrev pub zero_word : ℕ → ℕ → ℕ → ℕ
zero_word i j old = 0

-- One word in all cells of a register file of 64 rows.
abbrev pub fill_rows : ℕ → Grid → Grid
fill_rows word = write_rows 64 0 (λ i. true) (λ i j old. word)

-- `for (b = 0; b < 2; b++) if (both || b == target) ...`
abbrev pub fill_banks : Bool → ℕ → ℕ → (ℕ → Grid) → ℕ → Grid
fill_banks both target word banks =
    each (λ b s. if both || b == target then update s b (fill_rows word (s b)) else s) 2 0 banks

module _ {D : Type 0} where
  -- The rows of Dest that ZEROACC clears: one, 16, a half, or all. The loop over 16 rows ends at
  -- the last row of Dest, which is to skip the rows behind it.
  unfoldable pub zero_dest : Core D → ℕ → ℕ → Grid
  unfolding write_row write_rows
  zero_dest core imm tid =
      let place = field imm 0 14 in
      let mode = field imm 19 2 in
      let row = u32 (place + core.thd_reg tid 1 + (core.rwc tid).dest) in
      let face = if bit imm 18 then 32 else 16 in
      let start = u32 (u32 (field place 0 8 + core.thd_reg tid 1 / face) * face) in
      let half = if bit place 0 then 512 else 0 in
      if mode == 0
      then (if ltb row dest_rows then write_row row (zero_word 0) core.dest else core.dest)
      else if mode == 1
      then write_rows 16 start (λ i. ltb (start + i) dest_rows) zero_word core.dest
      else if mode == 2
      then write_rows 512 half (λ i. ltb (half + i) dest_rows) zero_word core.dest
      else write_rows dest_rows 0 (λ i. true) zero_word core.dest

  unfoldable pub ttzeroacc : Core D → ℕ → ℕ → Core D × Bool
  unfolding zero_dest
  ttzeroacc core imm tid =
      (if bit imm 17 then core else record core { dest = zero_dest core imm tid }, true)

  unfoldable pub ttzerosrc : Core D → ℕ → ℕ → Core D × Bool
  unfolding each write_rows
  ttzerosrc core imm tid =
      let b = core.banks in
      let targeta = if bit imm 3 then b.math_srca_bank else b.unp_srca_bank in
      let targetb = if bit imm 3 then b.math_srcb_bank else b.unp_srcb_bank in
      let word = if bit imm 4 then core.neginf else 0 in
      (
        record core {
          srca = if bit imm 0 then fill_banks (bit imm 2) targeta word core.srca else core.srca;
          srcb = if bit imm 1 then fill_banks (bit imm 2) targetb 0 core.srcb else core.srcb;
        },
        true,
      )

  -- The bank that UNPACR_NOP clears is waited for; all ones stand for minus infinity.
  unfoldable pub unpacr_zerosrc : Core D → ℕ → Core D × Bool
  unfolding each write_rows
  unpacr_zerosrc core imm =
      let b = core.banks in
      let is_srcb = bit imm 23 in
      let both = bit imm 3 in
      let checka = if bit imm 4 then b.unp_srca_bank else b.math_srca_bank in
      let checkb = if bit imm 4 then b.unp_srcb_bank else b.math_srcb_bank in
      let cleara = record core {
        srca = fill_banks both b.unp_srca_bank (if bit imm 2 then 0xFFFFFFFF else 0) core.srca;
        banks = record b { mova2d_bank_valid = false };
      } in
      let clearb = record core {
        srcb = fill_banks both b.unp_srcb_bank 0 core.srcb;
        banks = record b {
          srcb_zeroed =
              each (λ k z. if both || k == b.unp_srcb_bank then update z k true else z) 2 0
                b.srcb_zeroed;
        };
      } in
      let give = not (field imm 8 4 == 0) in
      if is_srcb
      then (if b.srcb_dvalid checkb
          then (core, false)
          else (set_banks clearb (when give give_srcb clearb.banks), true))
      else (if b.srca_dvalid checka
          then (core, false)
          else (set_banks cleara (when give give_srca cleara.banks), true))

  unfoldable pub ttunpacr_nop : Core D → ℕ → ℕ → Core D × Bool
  unfolding unpacr_zerosrc
  ttunpacr_nop core imm tid =
      if field imm 0 2 == 1
      then unpacr_zerosrc core imm
      else if field imm 0 3 == 7
      then (
        set_banks core (if bit imm 23 then give_srcb core.banks else give_srca core.banks),
        true,
      )
      else (core, true)
