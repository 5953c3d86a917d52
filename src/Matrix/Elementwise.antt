-- ===== src/Matrix/Elementwise.antt =====
-- What the element-wise instructions leave in each cell of Dest.
use rv32_emu.Base.{
  ℕ, ◌+◌, ◌-◌, ◌≤◌, ◌<◌, ◌≡◌, refl, ap, ◌∙◌, Bool, true, false, not, ◌&&◌, ◌||◌, ltb, leb,
  if◌then◌else◌, field, bit, arith, Bool-cases, inl, inr,
}
use rv32_emu.Core.{Core}
use rv32_emu.Floats.{FloatOps}
use rv32_emu.Counters.{apply_addr_mod}
use rv32_emu.Matrix.Grid.{Grid, write_rows-full}
use rv32_emu.Matrix.Moves.{masked, dest_row_of}
use rv32_emu.Matrix.Math.{
  owns_both, elementwise, on_block, elwmul_srca_bits, elwmul_srcb_bits, ttelwadd, ttelwsub,
  ttelwmul,
}

pub apply_addr_mod-dest :
    {D : Type 0} (core : Core D) (mode tid : ℕ) → (apply_addr_mod core mode tid).dest ≡ core.dest
unfolding apply_addr_mod
apply_addr_mod-dest core mode tid = elim (Bool-cases (ltb mode 8)) [
  | inl e ↦ rw e refl
  | inr e ↦ rw e refl
]

pub dest_block : (x : ℕ) → masked 3 10 x + 8 ≤ 1024
dest_block x = omega arith

pub src_block : (x : ℕ) → masked 3 6 x + 8 ≤ 64
src_block x = omega arith

pub src_row :
    (b : Bool) (x i : ℕ) → i < 8 → masked (if b then 0 else 3) 6 x + (if b then 0 else i) < 64
src_row true x i h = omega arith
src_row false x i h = omega arith

inside_all :
    (a b d : ℕ) → a < 64 → b < 64 → d < 1024 → not (leb 64 a || (leb 64 b || leb 1024 d)) ≡ true
inside_all a b d h k l = ground arith

module _ {D : Type 0} (f : ℕ → ℕ → ℕ → ℕ) (core : Core D) (imm tid : ℕ) where
  elementwise-cell :
      (r c : ℕ)
      → c < 16
      → let one_row = bit imm 20 in
        let base = masked 3 10 (dest_row_of core (field imm 0 14) tid) in
        let a =
          core.srca core.banks.math_srca_bank (masked 3 6 (core.rwc tid).srca + (r - base)) c in
        let b =
          core.srcb core.banks.math_srcb_bank
            (masked (if one_row then 0 else 3) 6 (core.rwc tid).srcb
              + (if one_row then 0 else r - base))
            (if bit imm 19 then 0 else c) in
        elementwise f core imm tid r c
        ≡ (if leb base r && ltb r (base + 8) then f a b (core.dest r c) else core.dest r c)
  unfolding elementwise
  elementwise-cell r c h =
      let one_row : Bool = bit imm 20 in
      let from_a : ℕ = masked 3 6 (core.rwc tid).srca in
      let from_b : ℕ = masked (if one_row then 0 else 3) 6 (core.rwc tid).srcb in
      let base : ℕ = masked 3 10 (dest_row_of core (field imm 0 14) tid) in
      let inside : ℕ → Bool = λ i. not (
        leb 64 (from_a + i)
        || (leb 64 (from_b + (if one_row then 0 else i)) || leb 1024 (base + i))) in
      let value : ℕ → ℕ → ℕ → ℕ = λ i j old.
        f (core.srca core.banks.math_srca_bank (from_a + i) j)
          (core.srcb core.banks.math_srcb_bank (from_b + (if one_row then 0 else i))
            (if bit imm 19 then 0 else j))
          old in
      write_rows-full 8 base inside value core.dest
        (λ i lt.
          inside_all (from_a + i) (from_b + (if one_row then 0 else i)) (base + i)
            (omega (arith, src_block (core.rwc tid).srca))
            (src_row one_row (core.rwc tid).srcb i lt)
            (omega (arith, dest_block (dest_row_of core (field imm 0 14) tid))))
        r c h

-- The three instructions, and the word that each makes of its operands and the old one.
pub data Elementwise : Type 0 where
  add sub mul : Elementwise

unfoldable pub run : {D : Type 0} → FloatOps → Elementwise → Core D → ℕ → ℕ → Core D × Bool
run ops add = ttelwadd ops
run ops sub = ttelwsub ops
run ops mul = ttelwmul ops

unfoldable pub result : FloatOps → Elementwise → Bool → ℕ → ℕ → ℕ → ℕ → ℕ
result ops add accumulate phase a b old =
    if accumulate then ops.add (ops.add a b) old else ops.add a b
result ops sub accumulate phase a b old =
    if accumulate then ops.add (ops.sub a b) old else ops.sub a b
result ops mul accumulate phase a b old =
    ops.add old (ops.mul (elwmul_srca_bits ops a phase) (elwmul_srcb_bits ops b phase))

module _ {D : Type 0} (ops : FloatOps) (core : Core D) (imm tid : ℕ) where
  on_block-dest :
      (f : ℕ → ℕ → ℕ → ℕ)
      → owns_both core.banks ≡ true
      → ((on_block f core imm tid).1 ≡ true)
        × ((on_block f core imm tid).0.dest ≡ elementwise f core imm tid)
  on_block-dest f owned = rw owned (refl, apply_addr_mod-dest _ _ tid)

  pub run-on_block :
      (op : Elementwise)
      → run ops op core imm tid
        ≡ on_block (result ops op (bit imm 21) (field (core.rwc tid).fidelity 0 2)) core imm tid
  unfolding run result ttelwadd ttelwsub ttelwmul
  run-on_block add = refl
  run-on_block sub = refl
  run-on_block mul = refl

  -- An ELWADD, ELWSUB or ELWMUL, when both operands' banks are the matrix unit's, completes and
  -- makes each cell of its block of 8 rows of Dest the sum, the difference (each with the old
  -- word added if the instruction says so) or the old word plus the product of the phase's
  -- parts, of the words of SrcA and SrcB that the broadcasts select; every other cell in the 16
  -- columns stays as it was.
  pub run-cell :
      (op : Elementwise) (r c : ℕ)
      → owns_both core.banks ≡ true
      → c < 16
      → let one_row = bit imm 20 in
        let base = masked 3 10 (dest_row_of core (field imm 0 14) tid) in
        let a =
          core.srca core.banks.math_srca_bank (masked 3 6 (core.rwc tid).srca + (r - base)) c in
        let b =
          core.srcb core.banks.math_srcb_bank
            (masked (if one_row then 0 else 3) 6 (core.rwc tid).srcb
              + (if one_row then 0 else r - base))
            (if bit imm 19 then 0 else c) in
        let phase = field (core.rwc tid).fidelity 0 2 in
        let after = run ops op core imm tid in
        (after.1 ≡ true)
        × (after.0.dest r c ≡ (
            if leb base r && ltb r (base + 8)
            then result ops op (bit imm 21) phase a b (core.dest r c)
            else core.dest r c))
  run-cell op r c owned h =
      let phase : ℕ = field (core.rwc tid).fidelity 0 2 in
      let f : ℕ → ℕ → ℕ → ℕ = result ops op (bit imm 21) phase in
      let (done, dest) = on_block-dest f owned in
      rw (run-on_block op)
        (done, ap (λ (g : Grid). g r c) dest ∙ elementwise-cell f core imm tid r c h)
