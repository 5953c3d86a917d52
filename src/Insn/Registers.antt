-- ===== src/Insn/Registers.antt =====
-- The scalar unit's registers stay 32-bit words, two halves make a word, and a subtraction undoes
-- an addition.
use native.Mathlib.Nat.{div-le_self, mul-le-mul}
use rv32_emu.Base.{
  ℕ, ◌≤◌, ◌+◌, ◌*◌, ◌/◌, ◌%◌, ◌^◌, ◌<◌, ◌≡◌, ap, ◌∙◌, true, false, ◌==◌, update_self, field, u32,
  arith,
}
use rv32_emu.Core.{Core}
use rv32_emu.Insn.Dma.{
  arith_op, write_half, sub32, mul16, left_of, right_of, ttsetdmareg, ttadddmareg, ttsubdmareg,
  ttmuldmareg, ttshiftdmareg, ttcmpdmareg, shift, compare_regs,
}

-- The immediate form of SETDMAREG that writes `value` to half `r`.
abbrev pub half_imm : ℕ → ℕ → ℕ
half_imm r value = value * 2 ^ 8 + r

write_half-low :
    (regs : ℕ → ℕ) (i lo : ℕ) → write_half regs (2 * i) lo i ≡ regs i / 2 ^ 16 * 2 ^ 16 + lo
write_half-low regs i lo =
    let reg : 2 * i / 2 ≡ i = omega arith in
    let low : (2 * i % 2 == 0) ≡ true = ground arith in
    rw (reg, low) (update_self regs i (regs i / 2 ^ 16 * 2 ^ 16 + lo))

write_half-high :
    (regs : ℕ → ℕ) (i hi : ℕ) → write_half regs (2 * i + 1) hi i ≡ hi * 2 ^ 16 + regs i % 2 ^ 16
write_half-high regs i hi =
    let reg : (2 * i + 1) / 2 ≡ i = omega arith in
    let high : ((2 * i + 1) % 2 == 0) ≡ false = ground arith in
    rw (reg, high) (update_self regs i (hi * 2 ^ 16 + regs i % 2 ^ 16))

arith-at :
    {D : Type 0} (op : ℕ → ℕ → ℕ) (core : Core D) (imm tid : ℕ)
    → (arith_op op core imm tid).0.dma_reg tid (field imm 12 6)
      ≡ op (left_of (core.dma_reg tid) imm) (right_of (core.dma_reg tid) imm)
arith-at op core imm tid =
    ap (λ (regs : ℕ → ℕ). regs (field imm 12 6)) (update_self core.dma_reg tid _)
    ∙ update_self (core.dma_reg tid) (field imm 12 6) _

module _ {D : Type 0} (core : Core D) (tid : ℕ) where
  setdmareg-half :
      (r value : ℕ)
      → r < 128
      → value < 2 ^ 16
      → (ttsetdmareg core (half_imm r value) tid).0.dma_reg tid
        ≡ write_half (core.dma_reg tid) r value
  unfolding ttsetdmareg
  setdmareg-half r value hr hv =
      let immediate : (field (half_imm r value) 7 1 == 0) ≡ true = ground arith in
      let number : field (half_imm r value) 0 7 ≡ r = omega arith in
      let payload : field (half_imm r value) 8 16 ≡ value = omega arith in
      rw (immediate, number, payload)
        (update_self core.dma_reg tid (write_half (core.dma_reg tid) r value))

  -- SUBDMAREG of a constant from a register that holds a 32-bit word, into the same register,
  -- undoes ADDDMAREG with the same fields, also where the sum wraps.
  pub ttsubdmareg-ttadddmareg :
      (imm : ℕ)
      → field imm 23 1 ≡ 1
      → field imm 0 6 ≡ field imm 12 6
      → core.dma_reg tid (field imm 12 6) < 2 ^ 32
      → (ttsubdmareg (ttadddmareg core imm tid).0 imm tid).0.dma_reg tid (field imm 12 6)
        ≡ core.dma_reg tid (field imm 12 6)
  unfolding ttsubdmareg ttadddmareg
  ttsubdmareg-ttadddmareg imm const same w =
      let added : Core D = (ttadddmareg core imm tid).0 in
      let k : ℕ = field imm 12 6 in
      let c : ℕ = field imm 6 6 in
      let x : ℕ = core.dma_reg tid k in
      let constant : (regs : ℕ → ℕ) → right_of regs imm ≡ c = λ regs. ground arith in
      let sum : added.dma_reg tid k ≡ u32 (x + c) =
        arith-at (λ l r. u32 (l + r)) core imm tid
        ∙ ap (λ (l : ℕ). u32 (l + right_of (core.dma_reg tid) imm)) (ap (core.dma_reg tid) same)
        ∙ ap (λ (r : ℕ). u32 (x + r)) (constant (core.dma_reg tid)) in
      arith-at sub32 added imm tid
      ∙ ap (λ (l : ℕ). sub32 l (right_of (added.dma_reg tid) imm))
          (ap (added.dma_reg tid) same ∙ sum)
      ∙ ap (λ (r : ℕ). sub32 (u32 (x + c)) r) (constant (added.dma_reg tid))
      ∙ omega (arith, w)

-- Two immediate SETDMAREG instructions of a thread, one for each half of a register, leave the
-- word of those two halves in it.
pub ttsetdmareg-word :
    {D : Type 0} (core : Core D) (tid i lo hi : ℕ)
    → i < 64
    → lo < 2 ^ 16
    → hi < 2 ^ 16
    → (ttsetdmareg
          (ttsetdmareg core (half_imm (2 * i) lo) tid).0
          (half_imm (2 * i + 1) hi)
          tid).0.dma_reg
        tid i
      ≡ hi * 2 ^ 16 + lo
ttsetdmareg-word core tid i lo hi h p q =
    let half : Core _ = (ttsetdmareg core (half_imm (2 * i) lo) tid).0 in
    let low : half.dma_reg tid i ≡ core.dma_reg tid i / 2 ^ 16 * 2 ^ 16 + lo =
      ap (λ (regs : ℕ → ℕ). regs i) (setdmareg-half core tid (2 * i) lo (omega arith) p)
      ∙ write_half-low (core.dma_reg tid) i lo in
    ap (λ (regs : ℕ → ℕ). regs i) (setdmareg-half half tid (2 * i + 1) hi (omega arith) q)
    ∙ write_half-high (half.dma_reg tid) i hi
    ∙ omega (arith, low)

-- Every register of every thread holds a 32-bit word.
abbrev pub IsWords : {D : Type 0} → Core D → Type 0
IsWords core = (t i : ℕ) → core.dma_reg t i < 2 ^ 32

arith-IsWords :
    {D : Type 0} (op : ℕ → ℕ → ℕ) (core : Core D) (imm tid : ℕ)
    → ((l r : ℕ) → l < 2 ^ 32 → r < 2 ^ 32 → op l r < 2 ^ 32)
    → IsWords core
    → IsWords (arith_op op core imm tid).0
arith-IsWords op core imm tid bound ok t i =
    let right_ok : right_of (core.dma_reg tid) imm < 2 ^ 32 =
      ground (arith, ok tid (field imm 6 6)) in
    ground (
      arith,
      ok t i,
      ok tid i,
      bound (left_of (core.dma_reg tid) imm) (right_of (core.dma_reg tid) imm)
          (ok tid (field imm 0 6)) right_ok,
    )

product-lt : (a b : ℕ) → a ≤ 65535 → b ≤ 65535 → a * b < 2 ^ 32
product-lt a b p q =
    let bound : a * b ≤ 65535 * 65535 = mul-le-mul {n₂ = 65535} {m₂ = 65535} p q in
    omega (arith, bound)

mul16-lt : (l r : ℕ) → mul16 l r < 2 ^ 32
mul16-lt l r = product-lt (l % 2 ^ 16) (r % 2 ^ 16) (omega arith) (omega arith)

shift-lt : (mode l r : ℕ) → l < 2 ^ 32 → shift mode l r < 2 ^ 32
unfolding shift
shift-lt mode l r h = ground (arith, div-le_self l (2 ^ (r % 32)))

compare_regs-lt : (mode l r : ℕ) → compare_regs mode l r < 2 ^ 32
unfolding compare_regs
compare_regs-lt mode l r = ground arith

-- If every scalar register holds a 32-bit word, so does every one after ADDDMAREG, SUBDMAREG,
-- MULDMAREG, SHIFTDMAREG and CMPDMAREG.
pub arith_family-IsWords :
    {D : Type 0} (core : Core D) (imm tid : ℕ)
    → IsWords core
    → IsWords (ttadddmareg core imm tid).0
      × IsWords (ttsubdmareg core imm tid).0
      × IsWords (ttmuldmareg core imm tid).0
      × IsWords (ttshiftdmareg core imm tid).0
      × IsWords (ttcmpdmareg core imm tid).0
unfolding ttadddmareg ttsubdmareg ttmuldmareg ttshiftdmareg ttcmpdmareg
arith_family-IsWords core imm tid ok = (
  arith-IsWords (λ l r. u32 (l + r)) core imm tid (λ l r p q. omega arith) ok,
  arith-IsWords sub32 core imm tid (λ l r p q. omega arith) ok,
  arith-IsWords mul16 core imm tid (λ l r p q. mul16-lt l r) ok,
  arith-IsWords (shift (field imm 18 3)) core imm tid (λ l r p q. shift-lt (field imm 18 3) l r p)
      ok,
  arith-IsWords (compare_regs (field imm 18 3)) core imm tid
      (λ l r p q. compare_regs-lt (field imm 18 3) l r) ok,
)
