-- ===== src/Matrix/Products.antt =====
-- The products and pools of the matrix unit: MVMUL, GMPOOL and GAPOOL.
use rv32_emu.Base.{
  ℕ, ◌+◌, ◌-◌, ◌*◌, ◌^◌, Bool, true, false, not, ◌&&◌, ◌||◌, ◌==◌, ltb, leb, if◌then◌else◌, update,
  field, bit,
}
use rv32_emu.Core.{Core, Banks}
use rv32_emu.Floats.{FloatOps}
use rv32_emu.Counters.{apply_addr_mod}
use rv32_emu.Insn.Banks.{other_bank}
use rv32_emu.Matrix.Grid.{Grid, row_size, each, set_cell, write_rows}
use rv32_emu.Matrix.Moves.{dest_rows, srca_rows, srcb_rows, masked, dest_row_of}
use rv32_emu.Matrix.Math.{flip, owns_both}

-- The one bank of SrcB that MVMUL skips: cleared, while the other one has data.
unfoldable pub skip_zeroed : Banks → Banks
skip_zeroed b =
    let other = other_bank b.math_srcb_bank in
    if b.srcb_zeroed b.math_srcb_bank && (b.srcb_dvalid other && not (b.srcb_zeroed other))
    then record b {
      srcb_dvalid = update b.srcb_dvalid b.math_srcb_bank false;
      srcb_zeroed = update b.srcb_zeroed b.math_srcb_bank false;
      math_srcb_bank = other;
    }
    else b

module _ (ops : FloatOps) where
  -- The sum over the 16 columns of a row of SrcB and the rows of SrcA, less those past its end.
  -- `low_fidelity` leaves out the lowest bit of the words of SrcB.
  abbrev pub row_product : Bool → Grid → Grid → ℕ → ℕ → ℕ → ℕ
  row_product low_fidelity srca srcb srca_row sb_idx j =
      each
        (λ k sum.
          let b = srcb sb_idx k in
          let b' = if low_fidelity then b - field b 16 1 * 2 ^ 16 else b in
          if leb srca_rows (srca_row + k)
          then sum
          else ops.add sum (ops.mul b' (srca (srca_row + k) j)))
        row_size 0 0

  -- The maximum of a column of 16 rows of SrcA and a word of Dest.
  abbrev pub column_max : Grid → ℕ → ℕ → ℕ → ℕ
  column_max srca srca_row j old =
      each
        (λ k cur.
          let a = if ltb (srca_row + k) srca_rows then srca (srca_row + k) j else 0 in
          if ops.greater a cur then a else cur)
        row_size 0 old

  -- One column: the maximum, and zeros in the three rows behind.
  abbrev pub pool_column : Grid → ℕ → ℕ → ℕ → Grid → Grid
  pool_column srca srca_row dest_base j g =
      each (λ i g'. if ltb (dest_base + i) dest_rows then set_cell (dest_base + i) j 0 g' else g') 3
        1 (set_cell dest_base j (column_max srca srca_row j (g dest_base j)) g)

  module _ {D : Type 0} where
    -- The product added and the operands flipped. `low_fidelity` is the test of the thread's MOP
    -- register. A later fidelity phase computes nothing.
    abbrev pub multiplied : Bool → Core D → ℕ → ℕ → Core D
    multiplied low_fidelity core imm tid =
        let banks = skip_zeroed core.banks in
        let one_row = bit imm 19 in
        let srca_row = masked 3 6 (core.rwc tid).srca in
        let srcb_row = masked (if one_row then 0 else 3) 6 (core.rwc tid).srcb in
        let row = dest_row_of core (field imm 0 14) tid in
        let dest_base = masked 3 10 row + (if one_row then field row 0 1 else 0) in
        let srca = core.srca banks.math_srca_bank in
        let srcb = core.srcb banks.math_srcb_bank in
        let computed =
          write_rows (if one_row then 7 else 8) dest_base
            (λ i. not (
              leb srcb_rows (srcb_row + (if one_row then 0 else i))
              || leb dest_rows (dest_base + i)))
            (λ i j old. ops.add old (
              row_product low_fidelity srca srcb srca_row (srcb_row + (if one_row then 0 else i))
                j))
            core.dest in
        record core {
          dest = if (core.rwc tid).fidelity == 0 then computed else core.dest;
          banks = flip imm banks;
        }

    unfoldable pub ttmvmul : Bool → Core D → ℕ → ℕ → Core D × Bool
    unfolding each write_rows skip_zeroed apply_addr_mod
    ttmvmul low_fidelity core imm tid =
        if not (owns_both core.banks)
        then (core, false)
        else (apply_addr_mod (multiplied low_fidelity core imm tid) (field imm 14 3) tid, true)

    unfoldable pub ttgmpool : Core D → ℕ → ℕ → Core D × Bool
    unfolding each apply_addr_mod
    ttgmpool core imm tid =
        let bank = core.banks.math_srca_bank in
        let srca_row = masked 4 6 (core.rwc tid).srca in
        let dest_base = masked 0 10 (dest_row_of core (field imm 0 14) tid) in
        let pooled = record core {
          dest =
              if ltb dest_base dest_rows
              then each (pool_column (core.srca bank) srca_row dest_base) row_size 0 core.dest
              else core.dest;
          banks = flip imm core.banks;
        } in
        if not (core.banks.srca_dvalid bank)
        then (core, false)
        else (apply_addr_mod pooled (field imm 15 3) tid, true)

    unfoldable pub ttgapool : Core D → ℕ → ℕ → Core D × Bool
    unfolding each write_rows apply_addr_mod
    ttgapool core imm tid =
        let bank = core.banks.math_srca_bank in
        let srca = core.srca bank in
        let srcb = core.srcb core.banks.math_srcb_bank in
        let srca_row = masked 3 6 (core.rwc tid).srca in
        let srcb_row = masked 3 6 (core.rwc tid).srcb in
        let dest_base = masked 0 10 (dest_row_of core (field imm 0 14) tid) in
        let sum = λ (j : ℕ).
          each
            (λ k acc. ops.add acc (
              ops.mul (if ltb srcb_row srcb_rows then srcb srcb_row k else 0)
                (if ltb (srca_row + k) srca_rows then srca (srca_row + k) j else 0)))
            row_size 0 0 in
        let pooled = record core {
          dest =
              if (core.rwc tid).fidelity == 0
              then write_rows 1 dest_base (λ i. ltb dest_base dest_rows)
                  (λ i j old. ops.add old (sum j)) core.dest
              else core.dest;
          banks = flip imm core.banks;
        } in
        if not (core.banks.srca_dvalid bank)
        then (core, false)
        else (apply_addr_mod pooled (field imm 15 3) tid, true)
