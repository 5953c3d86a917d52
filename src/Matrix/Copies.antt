-- ===== src/Matrix/Copies.antt =====
-- Rows that go from Dest to SrcB and on to Dest.
use rv32_emu.Base.{
  update_self, ℕ, ◌+◌, ◌-◌, ◌<◌, ◌≡◌, refl, ap, ◌∙◌, Bool, true, false, not, ◌&&◌, ◌||◌, ltb, leb,
  if◌then◌else◌, field, bit, u32, arith, Bool-cases, inl, inr,
}
use rv32_emu.Core.{Core}
use rv32_emu.Counters.{apply_addr_mod}
use rv32_emu.Matrix.Grid.{Grid, write_rows-full}
use rv32_emu.Matrix.Moves.{masked, copy_rows, dest_row_of, ttmovd2b, ttmovb2d, d2b_moved, b2d_moved}
use rv32_emu.Matrix.Elementwise.{apply_addr_mod-dest}
use rv32_emu.Matrix.Handover.{apply_addr_mod-banks}

-- The number of rows and the number of low bits that they leave clear.
abbrev pub rows_of : Bool → ℕ
rows_of four = if four then 4 else 1

abbrev pub low_of : Bool → ℕ
low_of four = if four then 2 else 0

inside_both :
    (four : Bool) (x y i : ℕ)
    → i < rows_of four
    → (not (leb 1024 (masked (low_of four) 10 x + i) || leb 64 (masked (low_of four) 6 y + i))
        ≡ true)
      × (not (leb 64 (masked (low_of four) 6 y + i) || leb 1024 (masked (low_of four) 10 x + i))
          ≡ true)
inside_both true x y i h =
    let a : masked 2 10 x + i < 1024 = omega arith in
    let b : masked 2 6 y + i < 64 = omega arith in (ground arith, ground arith)
inside_both false x y i h =
    let a : masked 0 10 x + i < 1024 = omega arith in
    let b : masked 0 6 y + i < 64 = omega arith in (ground arith, ground arith)

-- Both copies, on the register files alone.
copies-cell :
    (four : Bool) (x x' y : ℕ) (dest srcb : Grid) (r c : ℕ)
    → c < 16
    → copy_rows
        (rows_of four)
        (masked (low_of four) 6 y)
        64
        (masked (low_of four) 10 x')
        1024
        (copy_rows
          (rows_of four)
          (masked (low_of four) 10 x)
          1024
          (masked (low_of four) 6 y)
          64
          dest
          srcb)
        dest
        r
        c
      ≡ (if leb (masked (low_of four) 10 x') r && ltb r (masked (low_of four) 10 x' + rows_of four)
          then dest (masked (low_of four) 10 x + (r - masked (low_of four) 10 x')) c
          else dest r c)
copies-cell four x x' y dest srcb r c h =
    let from : ℕ = masked (low_of four) 10 x in
    let via : ℕ = masked (low_of four) 6 y in
    let to : ℕ = masked (low_of four) 10 x' in
    let n : ℕ = rows_of four in
    let mid : Grid = copy_rows n from 1024 via 64 dest srcb in
    let first : (r' : ℕ)
        → mid r' c
          ≡ (if leb via r' && ltb r' (via + n) then dest (from + (r' - via)) c else srcb r' c) =
      λ r'.
        write_rows-full n via (λ i. not (leb 1024 (from + i) || leb 64 (via + i)))
          (λ i j old. dest (from + i) j) srcb (λ i lt. (inside_both four x y i lt).0) r' c h in
    write_rows-full n to (λ i. not (leb 64 (via + i) || leb 1024 (to + i)))
      (λ i j old. mid (via + i) j) dest (λ i lt. (inside_both four x' y i lt).1) r c h
    ∙ elim (Bool-cases (leb to r && ltb r (to + n))) [
      | inl e ↦
          let low : leb via (via + (r - to)) ≡ true = ground arith in
          let high : ltb (via + (r - to)) (via + n) ≡ true = ground arith in
          let same : via + (r - to) - via ≡ r - to = omega arith in
          rw e (first (via + (r - to)) ∙ rw (low, high, same) refl)
      | inr e ↦ rw e refl
    ]

module _ {D : Type 0} (core : Core D) (imm tid : ℕ) where
  apply_addr_mod-srcb : (mode : ℕ) → (apply_addr_mod core mode tid).srcb ≡ core.srcb
  unfolding apply_addr_mod
  apply_addr_mod-srcb mode = elim (Bool-cases (ltb mode 8)) [
    | inl e ↦ rw e refl
    | inr e ↦ rw e refl
  ]

  ttmovb2d-dest :
      (ttmovb2d core imm tid).0.dest
      ≡ copy_rows
          (rows_of (bit imm 13))
          (masked (low_of (bit imm 13)) 6 (u32 (field imm 17 6 + (core.rwc tid).srcb)))
          64
          (masked (low_of (bit imm 13)) 10 (dest_row_of core (field imm 0 11) tid))
          1024
          (core.srcb core.banks.math_srcb_bank)
          core.dest
  unfolding ttmovb2d
  ttmovb2d-dest = apply_addr_mod-dest (b2d_moved core imm tid) (field imm 14 3) tid

module _ {D : Type 0} (core : Core D) (imm tid : ℕ) where
  -- What MOVD2B leaves: the rows in the bank of SrcB, and Dest and the bank's number as before.
  ttmovd2b-rows :
      let after = (ttmovd2b core imm tid).0 in
      (after.srcb after.banks.math_srcb_bank
        ≡ copy_rows
            (rows_of (bit imm 13))
            (masked (low_of (bit imm 13)) 10 (dest_row_of core (field imm 0 12) tid))
            1024
            (masked (low_of (bit imm 13)) 6 (u32 (field imm 17 6 + (core.rwc tid).srcb)))
            64
            core.dest
            (core.srcb core.banks.math_srcb_bank))
      × (after.dest ≡ core.dest)
  unfolding ttmovd2b
  ttmovd2b-rows =
      let next : Core D = d2b_moved core imm tid in
      let bank : ℕ = core.banks.math_srcb_bank in
      (
        rw
            (
              apply_addr_mod-srcb next imm tid (field imm 14 3),
              apply_addr_mod-banks next (field imm 14 3) tid,
            )
            (update_self core.srcb bank _),
        apply_addr_mod-dest next (field imm 14 3) tid,
      )

module _ {D : Type 0} (core : Core D) (imm imm' tid : ℕ) where
  -- A MOVD2B and then a MOVB2D of the same size with neither of its two broadcast bits set, by
  -- one thread and with the same rows of SrcB, copy the one or four aligned rows of Dest that
  -- the first names over those that the second names, and leave every other cell in the 16
  -- columns of Dest.
  pub ttmovb2d-ttmovd2b :
      (r c : ℕ)
      → let four = bit imm 13 in
        let mid = (ttmovd2b core imm tid).0 in
        bit imm' 13 ≡ four
        → bit imm' 12 ≡ false
        → bit imm' 11 ≡ false
        → masked (low_of four) 6 (u32 (field imm' 17 6 + (mid.rwc tid).srcb))
          ≡ masked (low_of four) 6 (u32 (field imm 17 6 + (core.rwc tid).srcb))
        → c < 16
        → let from = masked (low_of four) 10 (dest_row_of core (field imm 0 12) tid) in
          let to = masked (low_of four) 10 (dest_row_of mid (field imm' 0 11) tid) in
          (ttmovb2d mid imm' tid).0.dest r c ≡ (
            if leb to r && ltb r (to + rows_of four)
            then core.dest (from + (r - to)) c
            else core.dest r c)
  ttmovb2d-ttmovd2b r c same_size no_rows no_col same_row h =
      let mid : Core D = (ttmovd2b core imm tid).0 in
      let (rows, kept) = ttmovd2b-rows core imm tid in
      ap (λ (g : Grid). g r c) (ttmovb2d-dest mid imm' tid)
      ∙ rw (same_size, same_row, rows, kept)
          (copies-cell (bit imm 13) (dest_row_of core (field imm 0 12) tid)
            (dest_row_of mid (field imm' 0 11) tid) (u32 (field imm 17 6 + (core.rwc tid).srcb))
            core.dest (core.srcb core.banks.math_srcb_bank) r c h)
