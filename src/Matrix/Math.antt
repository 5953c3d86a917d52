-- ===== src/Matrix/Math.antt =====
-- The element-wise arithmetic of the matrix unit: ELWADD, ELWSUB and ELWMUL. A handler returns the
-- new core and the Boolean of the C function, false while an operand's bank is not the matrix unit's.
use rv32_emu.Base.{
  ℕ, ◌+◌, ◌*◌, ◌^◌, Bool, true, false, not, ◌&&◌, ◌||◌, leb, if◌then◌else◌, field, bit,
}
use rv32_emu.Core.{Core, Banks}
use rv32_emu.Floats.{FloatOps}
use rv32_emu.Counters.{apply_addr_mod}
use rv32_emu.Insn.Banks.{when, free_srca, free_srcb}
use rv32_emu.Matrix.Grid.{Grid, write_rows}
use rv32_emu.Matrix.Moves.{dest_rows, srca_rows, srcb_rows, masked, dest_row_of}

-- The operands' banks flipped as the instruction asks.
abbrev pub flip : ℕ → Banks → Banks
flip imm b = when (bit imm 23) free_srcb (when (bit imm 22) free_srca b)

abbrev pub owns_both : Banks → Bool
owns_both b = b.srca_dvalid b.math_srca_bank && b.srcb_dvalid b.math_srcb_bank

-- The words of SrcA and SrcB that a phase multiplies.
unfoldable pub elwmul_srca_bits : FloatOps → ℕ → ℕ → ℕ
elwmul_srca_bits ops x phase =
    let high = field x 19 13 * 2 ^ 19 in
    if not (bit phase 0) then high else ops.sub x (high + field x 0 14)

unfoldable pub elwmul_srcb_bits : FloatOps → ℕ → ℕ → ℕ
elwmul_srcb_bits ops x phase =
    let high = field x 17 15 * 2 ^ 17 in
    if not (bit phase 1) then high else ops.sub x (high + field x 0 13)

module _ {D : Type 0} where
  -- An 8 by 16 block of Dest, each word from those of SrcA and SrcB and its own old one. One row
  -- or the first column of SrcB may stand for all.
  unfoldable pub elementwise : (ℕ → ℕ → ℕ → ℕ) → Core D → ℕ → ℕ → Grid
  unfolding write_rows
  elementwise f core imm tid =
      let one_row = bit imm 20 in
      let one_column = bit imm 19 in
      let srca_row = masked 3 6 (core.rwc tid).srca in
      let srcb_row = masked (if one_row then 0 else 3) 6 (core.rwc tid).srcb in
      let dest_base = masked 3 10 (dest_row_of core (field imm 0 14) tid) in
      let srca = core.srca core.banks.math_srca_bank in
      let srcb = core.srcb core.banks.math_srcb_bank in
      write_rows 8 dest_base
        (λ i. not (
          leb srca_rows (srca_row + i)
          || (leb srcb_rows (srcb_row + (if one_row then 0 else i))
              || leb dest_rows (dest_base + i))))
        (λ i j old.
          f (srca (srca_row + i) j)
            (srcb (srcb_row + (if one_row then 0 else i)) (if one_column then 0 else j)) old)
        core.dest

  -- The block computed and the operands flipped.
  abbrev pub computed : (ℕ → ℕ → ℕ → ℕ) → Core D → ℕ → ℕ → Core D
  computed f core imm tid = record core {
    dest = elementwise f core imm tid;
    banks = flip imm core.banks;
  }

  -- What the three instructions do about it: wait, compute, flip, count.
  abbrev pub on_block : (ℕ → ℕ → ℕ → ℕ) → Core D → ℕ → ℕ → Core D × Bool
  on_block f core imm tid =
      if not (owns_both core.banks)
      then (core, false)
      else (apply_addr_mod (computed f core imm tid) (field imm 14 3) tid, true)

  module _ (ops : FloatOps) where
    unfoldable pub ttelwadd : Core D → ℕ → ℕ → Core D × Bool
    unfolding elementwise apply_addr_mod
    ttelwadd core imm tid =
        on_block (λ a b old. if bit imm 21 then ops.add (ops.add a b) old else ops.add a b) core imm
          tid

    unfoldable pub ttelwsub : Core D → ℕ → ℕ → Core D × Bool
    unfolding elementwise apply_addr_mod
    ttelwsub core imm tid =
        on_block (λ a b old. if bit imm 21 then ops.add (ops.sub a b) old else ops.sub a b) core imm
          tid

    unfoldable pub ttelwmul : Core D → ℕ → ℕ → Core D × Bool
    unfolding elementwise apply_addr_mod elwmul_srca_bits elwmul_srcb_bits
    ttelwmul core imm tid =
        let phase = field (core.rwc tid).fidelity 0 2 in
        on_block
          (λ a b old.
            ops.add old (ops.mul (elwmul_srca_bits ops a phase) (elwmul_srcb_bits ops b phase)))
          core imm tid
