-- ===== src/Matrix/Product.antt =====
-- MVMUL adds a matrix product to a block of Dest.
use rv32_emu.Base.{
  ℕ, zero, suc, ◌+◌, ◌-◌, ◌*◌, ◌^◌, ◌≤◌, ◌<◌, ◌≡◌, refl, ap, ◌∙◌, Bool, true, false, not, ◌&&◌,
  ◌||◌, ◌==◌, ltb, leb, if◌then◌else◌, field, bit, arith, Bool-cases, inl, inr,
}
use rv32_emu.Core.{Core, Banks}
use rv32_emu.Floats.{FloatOps}
use rv32_emu.Matrix.Grid.{Grid, each, each-last, write_rows, write_rows-full}
use rv32_emu.Matrix.Moves.{masked, dest_row_of}
use rv32_emu.Matrix.Math.{owns_both}
use rv32_emu.Matrix.Products.{row_product, ttmvmul, skip_zeroed, multiplied}
use rv32_emu.Matrix.Elementwise.{apply_addr_mod-dest}

-- The word of SrcB that enters a product, and the sum of the first `n` products of a row and a
-- column.
abbrev pub factor : Bool → ℕ → ℕ
factor low_fidelity b = if low_fidelity then b - field b 16 1 * 2 ^ 16 else b

unfoldable pub dot : FloatOps → (ℕ → ℕ) → (ℕ → ℕ) → ℕ → ℕ
dot ops row column zero = 0
dot ops row column (suc n) = ops.add (dot ops row column n) (ops.mul (row n) (column n))

-- The rows of SrcA that a block of 16 from a row on really has.
abbrev pub rows_left : ℕ → ℕ → ℕ
rows_left from n = if leb (from + n) 64 then n else 64 - from

module _ (ops : FloatOps) (row column : ℕ → ℕ) (from : ℕ) (h : from ≤ 64) where
  abbrev add_product : ℕ → ℕ → ℕ
  add_product k sum = if leb 64 (from + k) then sum else ops.add sum (ops.mul (row k) (column k))

  sum-dot : (n : ℕ) → each add_product n 0 0 ≡ dot ops row column (rows_left from n)
  unfolding each dot
  sum-dot zero = ground arith
  sum-dot (suc n) =
      each-last add_product n 0 0
      ∙ ap (λ (i : ℕ). add_product i (each add_product n 0 0)) (omega arith)
      ∙ ap (add_product n) (sum-dot n)
      ∙ elim (Bool-cases (leb 64 (from + n))) [
        | inl past ↦
            let stop : leb (from + suc n) 64 ≡ false = ground arith in
            let same : rows_left from n ≡ 64 - from = ground arith in rw (past, stop, same) refl
        | inr more ↦
            let fits : leb (from + n) 64 ≡ true = ground arith in
            let fits' : leb (from + suc n) 64 ≡ true = ground arith in rw (more, fits, fits') refl
      ]

first_phase {ℓ} : {A : Type ℓ} {x : ℕ} (a b : A) → x ≡ 0 → (if x == 0 then a else b) ≡ a
first_phase a b h = rw h refl

module _ {D : Type 0} (ops : FloatOps) (low_fidelity : Bool) (core : Core D) (imm tid : ℕ) where
  ttmvmul-done :
      owns_both core.banks ≡ true
      → (core.rwc tid).fidelity ≡ 0
      → ((ttmvmul ops low_fidelity core imm tid).1 ≡ true)
        × ((ttmvmul ops low_fidelity core imm tid).0.dest ≡ (
            let banks = skip_zeroed core.banks in
            let one_row = bit imm 19 in
            let row = dest_row_of core (field imm 0 14) tid in
            let base = masked 3 10 row + (if one_row then field row 0 1 else 0) in
            let from_a = masked 3 6 (core.rwc tid).srca in
            let from_b = masked (if one_row then 0 else 3) 6 (core.rwc tid).srcb in
            write_rows
              (if one_row then 7 else 8)
              base
              (λ i. not (leb 64 (from_b + (if one_row then 0 else i)) || leb 1024 (base + i)))
              (λ i j old. ops.add old (
                row_product ops low_fidelity
                  (core.srca banks.math_srca_bank)
                  (core.srcb banks.math_srcb_bank)
                  from_a
                  (from_b + (if one_row then 0 else i))
                  j))
              core.dest))
  unfolding ttmvmul
  ttmvmul-done owned phase =
      let banks : Banks = skip_zeroed core.banks in
      let one_row : Bool = bit imm 19 in
      let row : ℕ = dest_row_of core (field imm 0 14) tid in
      let base : ℕ = masked 3 10 row + (if one_row then field row 0 1 else 0) in
      let from_a : ℕ = masked 3 6 (core.rwc tid).srca in
      let from_b : ℕ = masked (if one_row then 0 else 3) 6 (core.rwc tid).srcb in
      let computed : Grid =
        write_rows (if one_row then 7 else 8) base
          (λ i. not (leb 64 (from_b + (if one_row then 0 else i)) || leb 1024 (base + i)))
          (λ i j old. ops.add old (
            row_product ops low_fidelity (core.srca banks.math_srca_bank)
              (core.srcb banks.math_srcb_bank) from_a (from_b + (if one_row then 0 else i)) j))
          core.dest in
      rw owned (
        refl,
        apply_addr_mod-dest (multiplied ops low_fidelity core imm tid) (field imm 14 3) tid
            ∙ first_phase computed core.dest phase,
      )

  rows_inside : (b d : ℕ) → b < 64 → d < 1024 → not (leb 64 b || leb 1024 d) ≡ true
  rows_inside b d h k = ground arith

  base_inside :
      (one : Bool) (x i : ℕ)
      → i < (if one then 7 else 8)
      → masked 3 10 x + (if one then field x 0 1 else 0) + i < 1024
  base_inside true x i h = omega arith
  base_inside false x i h = omega arith

  row_inside :
      (one : Bool) (x i : ℕ)
      → i < (if one then 7 else 8)
      → masked (if one then 0 else 3) 6 x + (if one then 0 else i) < 64
  row_inside true x i h = omega arith
  row_inside false x i h = omega arith

  -- An MVMUL of the first fidelity phase, when both operands' banks are the matrix unit's,
  -- completes and adds to each cell of its block of Dest the dot product of a row of SrcB and a
  -- column of SrcA, summed from the lowest index, over the rows that SrcA has; every other cell
  -- in the 16 columns of Dest stays as it was. The block has 8 rows, or 7 that all take one row
  -- of SrcB; SrcB is read from the bank left after a cleared one is skipped, without the words'
  -- bit 16 if the fidelity is low.
  pub ttmvmul-cell :
      (r c : ℕ)
      → owns_both core.banks ≡ true
      → (core.rwc tid).fidelity ≡ 0
      → c < 16
      → let banks = skip_zeroed core.banks in
        let one_row = bit imm 19 in
        let row = dest_row_of core (field imm 0 14) tid in
        let base = masked 3 10 row + (if one_row then field row 0 1 else 0) in
        let from_a = masked 3 6 (core.rwc tid).srca in
        let from_b = masked (if one_row then 0 else 3) 6 (core.rwc tid).srcb in
        let left = λ (k : ℕ).
          factor low_fidelity
            (core.srcb banks.math_srcb_bank (from_b + (if one_row then 0 else r - base)) k) in
        let right = λ (k : ℕ). core.srca banks.math_srca_bank (from_a + k) c in
        let after = ttmvmul ops low_fidelity core imm tid in
        (after.1 ≡ true)
        × (after.0.dest r c ≡ (
            if leb base r && ltb r (base + (if one_row then 7 else 8))
            then ops.add (core.dest r c) (dot ops left right (rows_left from_a 16))
            else core.dest r c))
  ttmvmul-cell r c owned phase h =
      let banks : Banks = skip_zeroed core.banks in
      let one_row : Bool = bit imm 19 in
      let row : ℕ = dest_row_of core (field imm 0 14) tid in
      let base : ℕ = masked 3 10 row + (if one_row then field row 0 1 else 0) in
      let from_a : ℕ = masked 3 6 (core.rwc tid).srca in
      let from_b : ℕ = masked (if one_row then 0 else 3) 6 (core.rwc tid).srcb in
      let inside : ℕ → Bool =
        λ i. not (leb 64 (from_b + (if one_row then 0 else i)) || leb 1024 (base + i)) in
      let value : ℕ → ℕ → ℕ → ℕ = λ i j old. ops.add old (
        row_product ops low_fidelity (core.srca banks.math_srca_bank)
          (core.srcb banks.math_srcb_bank) from_a (from_b + (if one_row then 0 else i)) j) in
      let left : ℕ → ℕ = λ k.
        factor low_fidelity
          (core.srcb banks.math_srcb_bank (from_b + (if one_row then 0 else r - base)) k) in
      let right : ℕ → ℕ = λ k. core.srca banks.math_srca_bank (from_a + k) c in
      let sum = sum-dot ops left right from_a (omega arith) 16 in
      let (done, dest) = ttmvmul-done owned phase in
      (
        done,
        ap (λ (g : Grid). g r c) dest
            ∙ write_rows-full (if one_row then 7 else 8) base inside value core.dest
                (λ i lt.
                  rows_inside (from_b + (if one_row then 0 else i)) (base + i)
                    (row_inside one_row (core.rwc tid).srcb i lt) (base_inside one_row row i lt))
                r c h
            ∙ ap
                (λ (s : ℕ).
                  if leb base r && ltb r (base + (if one_row then 7 else 8))
                  then ops.add (core.dest r c) s
                  else core.dest r c)
                sum,
      )
