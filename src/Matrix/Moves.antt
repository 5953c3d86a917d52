-- ===== src/Matrix/Moves.antt =====
-- Rows moved between SrcA, SrcB and Dest, and SrcB transposed. A handler returns the
-- new core and the Boolean of the C function.
use rv32_emu.Base.{
  ℕ, ◌+◌, ◌-◌, ◌*◌, ◌^◌, Bool, true, false, not, ◌||◌, leb, if◌then◌else◌, update, field, bit, u32,
}
use rv32_emu.Core.{Core}
use rv32_emu.Counters.{apply_addr_mod}
use rv32_emu.Matrix.Grid.{Grid, each, set_cell, write_rows}

abbrev pub dest_rows : ℕ
dest_rows = 1024

abbrev pub srca_rows : ℕ
srca_rows = 64

abbrev pub srcb_rows : ℕ
srcb_rows = 64

-- `x & mask` for a mask of the bits from `low` to below `high`.
abbrev pub masked : ℕ → ℕ → ℕ → ℕ
masked low high x = field x low (high - low) * 2 ^ low

-- The rows from `from` on copied to the rows from `to` on, `n` of them; the guards are on the two
-- register files' numbers of rows.
abbrev pub copy_rows : ℕ → ℕ → ℕ → ℕ → ℕ → Grid → Grid → Grid
copy_rows n from from_rows to to_rows source =
    write_rows n to (λ i. not (leb from_rows (from + i) || leb to_rows (to + i)))
      (λ i j old. source (from + i) j)

-- The exchange of `(i, j)` and `(j, i)` of the 16 by 16 words from row 16 on.
abbrev pub swap_cells : ℕ → ℕ → Grid → Grid
swap_cells i j g = set_cell (16 + j) i (g (16 + i) j) (set_cell (16 + i) j (g (16 + j) i) g)

-- `for (i = 0; i < 16; i++) for (j = 0; j < i; j++) ...`
abbrev pub swap_row : ℕ → Grid → Grid
swap_row i = each (swap_cells i) i 0

unfoldable pub transpose : Grid → Grid
unfolding each
transpose = each swap_row 16 0

module _ {D : Type 0} where
  -- The row of Dest that an instruction names, before the mask.
  abbrev pub dest_row_of : Core D → ℕ → ℕ → ℕ
  dest_row_of core row tid = u32 (row + core.thd_reg tid 1 + (core.rwc tid).dest)

  unfoldable pub ttmovd2a : Core D → ℕ → ℕ → Core D × Bool
  unfolding write_rows apply_addr_mod
  ttmovd2a core imm tid =
      let four = bit imm 13 in
      let low = if four then 2 else 0 in
      let dest_base = masked low 10 (dest_row_of core (field imm 0 12) tid) in
      let srca_row = masked low 6 (u32 (field imm 17 6 + (core.rwc tid).srca)) in
      let bank = core.banks.math_srca_bank in
      let moved = record core {
        srca = update core.srca bank (
            copy_rows (if four then 4 else 1) dest_base dest_rows srca_row srca_rows core.dest
              (core.srca bank));
        banks = record core.banks { srca_dvalid = update core.banks.srca_dvalid bank true };
      } in
      (apply_addr_mod moved (field imm 14 3) tid, true)

  -- The rows of Dest in SrcB, its bank the matrix unit's own.
  abbrev pub d2b_moved : Core D → ℕ → ℕ → Core D
  d2b_moved core imm tid =
      let four = bit imm 13 in
      let low = if four then 2 else 0 in
      let dest_base = masked low 10 (dest_row_of core (field imm 0 12) tid) in
      let srcb_row = masked low 6 (u32 (field imm 17 6 + (core.rwc tid).srcb)) in
      let bank = core.banks.math_srcb_bank in
      record core {
        srcb = update core.srcb bank (
            copy_rows (if four then 4 else 1) dest_base dest_rows srcb_row srcb_rows core.dest
              (core.srcb bank));
        banks = record core.banks { srcb_dvalid = update core.banks.srcb_dvalid bank true };
      }

  unfoldable pub ttmovd2b : Core D → ℕ → ℕ → Core D × Bool
  unfolding write_rows apply_addr_mod
  ttmovd2b core imm tid = (apply_addr_mod (d2b_moved core imm tid) (field imm 14 3) tid, true)

  unfoldable pub ttmovb2a : Core D → ℕ → ℕ → Core D × Bool
  unfolding write_rows apply_addr_mod
  ttmovb2a core imm tid =
      let four = bit imm 13 in
      let low = if four then 2 else 0 in
      let srca_row = masked low 6 (u32 (field imm 17 6 + (core.rwc tid).srca)) in
      let srcb_row = masked low 6 (u32 (field imm 0 6 + (core.rwc tid).srcb)) in
      let banka = core.banks.math_srca_bank in
      let bankb = core.banks.math_srcb_bank in
      let moved = record core {
        srca = update core.srca banka (
            copy_rows (if four then 4 else 1) srcb_row srcb_rows srca_row srca_rows
              (core.srcb bankb) (core.srca banka));
        banks = record core.banks { srca_dvalid = update core.banks.srca_dvalid banka true };
      } in
      (apply_addr_mod moved (field imm 14 3) tid, true)

  -- Not completed while the matrix unit's bank of SrcA is not its own.
  unfoldable pub ttmova2d : Core D → ℕ → ℕ → Core D × Bool
  unfolding write_rows apply_addr_mod
  ttmova2d core imm tid =
      let eight = bit imm 13 in
      let low = if eight then 3 else 0 in
      let dest_base = masked low 10 (dest_row_of core (field imm 0 12) tid) in
      let srca_row = masked low 6 (u32 (field imm 17 6 + (core.rwc tid).srca)) in
      let bank = core.banks.math_srca_bank in
      let moved = record core {
        dest =
            copy_rows (if eight then 8 else 1) srca_row srca_rows dest_base dest_rows
              (core.srca bank) core.dest;
      } in
      if not (core.banks.srca_dvalid bank)
      then (core, false)
      else (apply_addr_mod moved (field imm 14 3) tid, true)

  -- The rows of SrcB in Dest.
  abbrev pub b2d_moved : Core D → ℕ → ℕ → Core D
  b2d_moved core imm tid =
      let four = bit imm 13 in
      let low = if four then 2 else 0 in
      let dest_base = masked low 10 (dest_row_of core (field imm 0 11) tid) in
      let srcb_row = masked low 6 (u32 (field imm 17 6 + (core.rwc tid).srcb)) in
      record core {
        dest =
            copy_rows (if four then 4 else 1) srcb_row srcb_rows dest_base dest_rows
              (core.srcb core.banks.math_srcb_bank) core.dest;
      }

  unfoldable pub ttmovb2d : Core D → ℕ → ℕ → Core D × Bool
  unfolding write_rows apply_addr_mod
  ttmovb2d core imm tid = (apply_addr_mod (b2d_moved core imm tid) (field imm 14 3) tid, true)

  unfoldable pub tttrnspsrcb : Core D → ℕ → ℕ → Core D × Bool
  tttrnspsrcb core imm tid =
      let bank = core.banks.math_srcb_bank in
      (record core { srcb = update core.srcb bank (transpose (core.srcb bank)) }, true)
