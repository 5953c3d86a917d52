-- ===== src/Gate/Conditions.antt =====
-- What a latched gate waits for, against the conditions as STALLWAIT and SEMWAIT name them.
use rv32_emu.Base.{
  ℕ, zero, suc, ◌+◌, ◌≤◌, ◌<◌, ◌≡◌, ◌≢◌, ◌↔◌, ap, Bool, true, false, not, ◌==◌, if◌then◌else◌, bit,
  arith,
}
use native.Mathlib.Decide.{ℕ_discrete}
use rv32_emu.Core.{Banks, Syncs}
use rv32_emu.Gate.Defs.{
  Gate, is_wait, latch, check, selected_from, is_zero, is_max, insn_opcode, insn_param,
  opcode_stallwait, opcode_semwait,
}

-- A latched gate has a unit to hold back, and the masks of the two kinds that are looked at.
pub record IsLatched (g : Gate) : Type 0 where
  pub is_active : g.active ≡ true
  pub blocks_some : 0 < g.block_mask
  pub block_le : g.block_mask ≤ 0x1FF
  pub stall_cond : g.opcode ≡ opcode_stallwait → 0 < g.condition_mask
  pub sem_cond : g.opcode ≡ opcode_semwait → (0 < g.condition_mask) × (g.condition_mask < 4)

-- Latching any of the three wait instructions leaves an active gate that blocks at least one of
-- the nine units and none beyond them, with a condition selected for a STALLWAIT, and one or
-- both of the two for a SEMWAIT.
pub latch-IsLatched :
    (g : Gate) (insn : ℕ) → is_wait (insn_opcode insn) ≡ true → IsLatched (latch g insn)
unfolding latch insn_opcode insn_param
latch-IsLatched g insn h = ground arith

-- The loop over the semaphores returns early exactly when some selected one in reach does.
selected_from_iff :
    (p : ℕ → Bool) (mask n from : ℕ)
    → (selected_from p mask n from ≡ false)
      ↔ ((i : ℕ) → from ≤ i → i < from + n → bit mask i ≡ true → p i ≡ false)
unfolding selected_from
selected_from_iff p mask zero from = ground arith
selected_from_iff p mask (suc n) from =
    let rest = selected_from_iff p mask n (suc from) in
    (
      λ h i lo hi b. elim (ℕ_discrete from i) [
        | yes e ↦ ground (arith, ap p e, ap (bit mask) e)
        | no ne ↦ rest.0 (ground arith) i (omega arith) (omega arith) b
      ],
      λ h.
          let later = rest.1 (λ i lo hi b. h i (omega arith) (omega arith) b) in
          ground (arith, h from),
    )

-- The conditions that hold a STALLWAIT: 5 and 6 while the bank of the unpackers is not theirs, 7
-- and 8 while that of the matrix unit is not its own; the other units are done at once.
abbrev pub busy : Banks → ℕ → Bool
busy banks c =
    if c == 5
    then banks.srca_dvalid banks.unp_srca_bank
    else if c == 6
    then banks.srcb_dvalid banks.unp_srcb_bank
    else if c == 7
    then not (banks.srca_dvalid banks.math_srca_bank)
    else if c == 8
    then not (banks.srcb_dvalid banks.math_srcb_bank)
    else false

module _ (g : Gate) (banks : Banks) (syncs : Syncs) (on : g.active ≡ true) where
  -- An active STALLWAIT gate opens exactly when no condition that its mask selects is busy,
  -- where conditions 5 to 8 are busy by the owners of the SrcA and SrcB banks and the others
  -- never.
  pub check_stallwait :
      g.opcode ≡ opcode_stallwait
      → (check g banks syncs ≡ true)
        ↔ ((c : ℕ) → bit g.condition_mask c ≡ true → busy banks c ≡ false)
  unfolding check
  check_stallwait stalls = (λ h c b. ground arith, λ h. ground (arith, h 5, h 6, h 7, h 8))

  -- An active SEMWAIT gate opens exactly when every selected semaphore of the eight is not zero,
  -- if condition 0 is selected, and below its maximum, if condition 1 is selected.
  pub check_semwait :
      g.opcode ≡ opcode_semwait
      → (check g banks syncs ≡ true) ↔ (
          (i : ℕ)
          → i < 8
          → bit g.semaphore_mask i ≡ true
          → (bit g.condition_mask 0 ≡ true → syncs.sem i ≢ 0)
            × (bit g.condition_mask 1 ≡ true → syncs.sem i < syncs.sem_max i))
  unfolding check
  check_semwait waits =
      let zeros = selected_from_iff (is_zero syncs) g.semaphore_mask 8 0 in
      let maxes = selected_from_iff (is_max syncs) g.semaphore_mask 8 0 in
      (
        λ h i lt b. (
          λ c. ground (arith, zeros.0 (ground arith) i (omega arith) (omega arith) b),
          λ c. ground (arith, maxes.0 (ground arith) i (omega arith) (omega arith) b),
        ),
        λ h.
            let no_zero : bit g.condition_mask 0 ≡ true
                → selected_from (is_zero syncs) g.semaphore_mask 8 0 ≡ false =
              λ c. zeros.1 (λ i lo lt b. ground (arith, (h i (omega arith) b).0 c)) in
            let no_max : bit g.condition_mask 1 ≡ true
                → selected_from (is_max syncs) g.semaphore_mask 8 0 ≡ false =
              λ c. maxes.1 (λ i lo lt b. ground (arith, (h i (omega arith) b).1 c)) in
            ground arith,
      )
