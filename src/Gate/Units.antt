-- ===== src/Gate/Units.antt =====
-- The units that an instruction needs, by its opcode, as the block mask of STALLWAIT numbers them.
use rv32_emu.Base.{
  ℕ, zero, suc, ◌+◌, ◌<◌, ◌≡◌, refl, sym, ap, ◌∙◌, Bool, true, false, not, ◌&&◌, ◌||◌, ◌==◌, ltb,
  ◌^◌, ◌-◌, ◌≢◌, bit_and, leb, bit, arith, Bool-cases, inl, inr, if◌then◌else◌,
}
use native.Mathlib.Decide.{ℕ_discrete}
use rv32_emu.Base.BitOps.{bit-bit_and, zero_of_bits, bit-beyond}
use rv32_emu.Gate.Defs.{Gate, is_wait, insn_get_block_bits}

-- `lo ≤ x ≤ hi`.
abbrev pub within : ℕ → ℕ → ℕ → Bool
within lo hi x = leb lo x && leb x hi

abbrev pub needs_thcon : ℕ → Bool
needs_thcon op =
    within 0x45 0x46 op
    || within 0x48 0x49 op
    || within 0x58 0x5D op
    || within 0x60 0x64 op
    || within 0x66 0x68 op

abbrev pub needs_matrix : ℕ → Bool
needs_matrix op =
    within 0x08 0x0B op
    || within 0x10 0x13 op
    || within 0x16 0x18 op
    || within 0x21 0x29 op
    || within 0x30 0x38 op
    || op == 0x3A

-- STALLWAIT, SEMWAIT and STREAMWAIT.
unfoldable pub waits : ℕ → Bool
waits op = op == 0xA2 || within 0xA6 0xA7 op

pub is_wait-waits : (op : ℕ) → is_wait op ≡ waits op
unfolding waits
is_wait-waits op = elim (Bool-cases (waits op)) [
  | inl yes_wait ↦ ground arith
  | inr no_wait ↦ ground arith
]

-- Whether the instruction needs unit `u` of the nine: 0 the group of the scalar unit with the
-- packers, the unpackers and the mover, 1 the synchronisation, 2 the packers, 3 the unpackers,
-- 4 the mover, 5 the scalar unit, 6 the matrix unit, 7 the configuration, 8 the vector unit.
-- STALLWAIT, SEMWAIT and STREAMWAIT need them all.
unfoldable pub needs_unit : ℕ → ℕ → Bool
needs_unit op u =
    if op == 0xA2 || within 0xA6 0xA7 op
    then leb u 8
    else if u == 0
    then within 0x40 0x46 op
      || within 0x48 0x4A op
      || within 0x50 0x5E op
      || within 0x60 0x64 op
      || within 0x66 0x68 op
    else if u == 1
    then within 0xA0 0xA5 op
    else if u == 2
    then op == 0x41 || op == 0x4A
    else if u == 3
    then within 0x42 0x43 op
    else if u == 4
    then op == 0x40
    else if u == 5
    then needs_thcon op
    else if u == 6
    then needs_matrix op
    else if u == 7
    then within 0xB0 0xB8 op
    else if u == 8
    then within 0x70 0x99 op
    else false

-- `p` at every number below `n`.
unfoldable pub all_below : ℕ → (ℕ → Bool) → Bool
all_below zero p = true
all_below (suc n) p = p n && all_below n p

pub all_below-at : (n : ℕ) (p : ℕ → Bool) → all_below n p ≡ true → (i : ℕ) → i < n → p i ≡ true
unfolding all_below
all_below-at zero p h i lt = absurd (omega arith)
all_below-at (suc n) p h i lt = elim (ℕ_discrete i n) [
  | yes e ↦ ground (arith, ap p e)
  | no ne ↦ all_below-at n p (ground arith) i (omega arith)
]

abbrev pub same_bool : Bool → Bool → Bool
same_bool true b = b
same_bool false b = not b

pub same_bool-eq : (a b : Bool) → same_bool a b ≡ true → a ≡ b
same_bool-eq true true h = refl
same_bool-eq true false h = sym h
same_bool-eq false true h = h
same_bool-eq false false h = refl

bits_agree :
    all_below 256 (λ op. all_below 9 λ u.
      same_bool (bit (insn_get_block_bits op) u) (needs_unit op u)
      && ltb (insn_get_block_bits op) (2 ^ 9))
    ≡ true
unfolding all_below insn_get_block_bits needs_unit
bits_agree = refl

needs_unit-beyond : (op k : ℕ) → needs_unit op (9 + k) ≡ false
unfolding needs_unit
needs_unit-beyond op k = ground arith

-- The bits of an opcode are the units that it needs.
pub insn_get_block_bits-unit :
    (op u : ℕ) → op < 256 → bit (insn_get_block_bits op) u ≡ needs_unit op u
insn_get_block_bits-unit op u lt =
    let row = all_below-at 256 _ bits_agree op lt in
    elim (Bool-cases (ltb u 9)) [
      | inl low ↦
          same_bool-eq (bit (insn_get_block_bits op) u) (needs_unit op u)
            (ground (arith, all_below-at 9 _ row u (ground arith)))
      | inr high ↦
          let small : insn_get_block_bits op < 2 ^ 9 =
            ground (arith, all_below-at 9 _ row 0 (omega arith)) in
          let at : u ≡ 9 + (u - 9) = ground arith in
          rw at (
            bit-beyond 9 (u - 9) (insn_get_block_bits op) small
            ∙ sym (needs_unit-beyond op (u - 9)))
    ]

-- The gate holds back none of the units that the instruction needs; and a NOP, which needs none,
-- is not one that waits for everything.
pub record Apart (g : Gate) (op : ℕ) : Type 0 where
  pub no_unit : (u : ℕ) → needs_unit op u ≡ true → bit g.block_mask u ≡ false
  pub no_nop : op ≡ 0x02 → g.block_mask ≢ 0x1FF

nop_needs_none : (u : ℕ) → needs_unit 0x02 u ≡ false
unfolding needs_unit
nop_needs_none u = ground arith

common_bit :
    (g : Gate) (op u : ℕ)
    → op < 256
    → bit (bit_and (insn_get_block_bits op) g.block_mask) u
      ≡ (needs_unit op u && bit g.block_mask u)
common_bit g op u lt =
    bit-bit_and (insn_get_block_bits op) g.block_mask u
    ∙ ap (λ b. b && bit g.block_mask u) (insn_get_block_bits-unit op u lt)

pub bit_and-Apart :
    (g : Gate) (op : ℕ) → op < 256 → Apart g op → bit_and (insn_get_block_bits op) g.block_mask ≡ 0
bit_and-Apart g op lt apart =
    zero_of_bits (bit_and (insn_get_block_bits op) g.block_mask)
      (λ u. common_bit g op u lt ∙ none (needs_unit op u) (bit g.block_mask u) (apart.no_unit u))
  where
    none : (a b : Bool) → (a ≡ true → b ≡ false) → (a && b) ≡ false
    none true b h = h refl
    none false b h = refl

pub bit_and-no_unit :
    (g : Gate) (op u : ℕ)
    → op < 256
    → bit_and (insn_get_block_bits op) g.block_mask ≡ 0
    → needs_unit op u ≡ true
    → bit g.block_mask u ≡ false
bit_and-no_unit g op u lt zero_bits needs =
    let nothing : bit (bit_and (insn_get_block_bits op) g.block_mask) u ≡ false =
      ap (λ (x : ℕ). bit x u) zero_bits ∙ none u in
    ground (arith, sym (common_bit g op u lt) ∙ nothing)
  where
    none : (v : ℕ) → bit 0 v ≡ false
    none v = ground arith
