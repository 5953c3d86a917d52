-- ===== src/Insn/Dma.antt =====
-- The scalar unit's 64 registers of 32 bits per thread: the immediate and the packer mode of
-- SETDMAREG, and the arithmetic. A handler returns the new core and the Boolean of the C function.
-- Register numbers have 6 bits, so the C guards `< DMA_REG_COUNT` always hold.
use rv32_emu.Base.{
  ℕ, ◌+◌, ◌-◌, ◌*◌, ◌/◌, ◌%◌, ◌^◌, Bool, true, ◌==◌, ltb, if◌then◌else◌, update, field, u32,
  bit_and, bit_or, bit_xor,
}
use rv32_emu.Core.{Core}

-- Half `r` of a register file of 32-bit words, low half first.
abbrev pub write_half : (ℕ → ℕ) → ℕ → ℕ → ℕ → ℕ
write_half regs r value =
    let i = r / 2 in
    update regs i
      (if r % 2 == 0 then regs i / 2 ^ 16 * 2 ^ 16 + value else value * 2 ^ 16 + regs i % 2 ^ 16)

-- The packer state that the special mode reads is zero throughout.
abbrev pub write_signals : (ℕ → ℕ) → ℕ → ℕ → ℕ → ℕ
write_signals regs imm r =
    let size = field imm 22 2 in
    let base = r / 2 / 4 * 4 in
    if size == 0
    then write_half regs r 0
    else if size == 1
    then update regs (r / 2) 0
    else if size == 2
    then update (update (update (update regs base 0) (base + 1) 0) (base + 2) 0) (base + 3) 0
    else update
        (update (update regs base (regs base / 2 ^ 16 * 2 ^ 16)) (base + 1)
          (regs (base + 1) / 2 ^ 24 * 2 ^ 24 + regs (base + 1) % 2 ^ 16))
        (base + 2) 0

-- The operands of the arithmetic, and its six operations.
abbrev pub left_of : (ℕ → ℕ) → ℕ → ℕ
left_of regs imm = regs (field imm 0 6)

abbrev pub right_of : (ℕ → ℕ) → ℕ → ℕ
right_of regs imm = if field imm 23 1 == 1 then field imm 6 6 else regs (field imm 6 6)

unfoldable pub bitwop : ℕ → ℕ → ℕ → ℕ
bitwop mode l r =
    if mode == 0
    then bit_and l r
    else if mode == 1
    then bit_or l r
    else if mode == 2
    then bit_xor l r
    else 0

unfoldable pub shift : ℕ → ℕ → ℕ → ℕ
shift mode l r =
    if mode == 0 then u32 (l * 2 ^ (r % 32)) else if mode == 1 then l / 2 ^ (r % 32) else 0

unfoldable pub compare_regs : ℕ → ℕ → ℕ → ℕ
compare_regs mode l r =
    if mode == 0
    then (if ltb r l then 1 else 0)
    else if mode == 1
    then (if ltb l r then 1 else 0)
    else if mode == 2
    then (if l == r then 1 else 0)
    else 0

-- A difference of two 32-bit words wraps.
abbrev pub sub32 : ℕ → ℕ → ℕ
sub32 l r = u32 (l + 2 ^ 32 - r)

-- The product of the low halves.
abbrev pub mul16 : ℕ → ℕ → ℕ
mul16 l r = l % 2 ^ 16 * (r % 2 ^ 16)

module _ {D : Type 0} where
  abbrev pub set_regs : Core D → ℕ → (ℕ → ℕ) → Core D
  set_regs core tid regs = record core { dma_reg = update core.dma_reg tid regs }

  unfoldable pub ttsetdmareg : Core D → ℕ → ℕ → Core D × Bool
  ttsetdmareg core imm tid =
      let regs = core.dma_reg tid in
      let r = field imm 0 7 in
      (
        set_regs core tid (
            if field imm 7 1 == 0
            then write_half regs r (field imm 8 16)
            else write_signals regs imm r),
        true,
      )

  -- An operation on the two operands, into the register of the result.
  abbrev pub arith_op : (ℕ → ℕ → ℕ) → Core D → ℕ → ℕ → Core D × Bool
  arith_op op core imm tid =
      let regs = core.dma_reg tid in
      (
        set_regs core tid
            (update regs (field imm 12 6) (op (left_of regs imm) (right_of regs imm))),
        true,
      )

  unfoldable pub ttadddmareg : Core D → ℕ → ℕ → Core D × Bool
  ttadddmareg = arith_op (λ l r. u32 (l + r))

  unfoldable pub ttsubdmareg : Core D → ℕ → ℕ → Core D × Bool
  ttsubdmareg = arith_op sub32

  unfoldable pub ttmuldmareg : Core D → ℕ → ℕ → Core D × Bool
  ttmuldmareg = arith_op mul16

  unfoldable pub ttbitwopdmareg : Core D → ℕ → ℕ → Core D × Bool
  unfolding bitwop
  ttbitwopdmareg core imm tid = arith_op (bitwop (field imm 18 3)) core imm tid

  unfoldable pub ttshiftdmareg : Core D → ℕ → ℕ → Core D × Bool
  unfolding shift
  ttshiftdmareg core imm tid = arith_op (shift (field imm 18 3)) core imm tid

  unfoldable pub ttcmpdmareg : Core D → ℕ → ℕ → Core D × Bool
  unfolding compare_regs
  ttcmpdmareg core imm tid = arith_op (compare_regs (field imm 18 3)) core imm tid
