-- ===== src/Gate/Tests.antt =====
-- The wait gate's theorems at concrete gates.
use rv32_emu.Base.{ℕ, ◌≡◌, ◌≢◌, ◌<◌, ◌↔◌, refl, true, false, bit}
use rv32_emu.Core.{Banks, Syncs}
use rv32_emu.Gate.Defs.{Gate, check, selected_from}
use rv32_emu.Gate.Conditions.{busy, check_stallwait, check_semwait}

abbrev closed : Gate
closed = record {
  active = false;
  opcode = 0;
  condition_mask = 0;
  block_mask = 0;
  semaphore_mask = 0;
  target_value = 0;
  stream_select = 0;
}

-- STALLWAIT of the matrix unit on SrcA and SrcB, and SEMWAIT on semaphore 1 being zero.
abbrev stall_gate : Gate
stall_gate = record closed {
  active = true;
  opcode = 0xA2;
  condition_mask = 0x180;
  block_mask = 0x40;
}

abbrev sem_gate : Gate
sem_gate = record closed {
  active = true;
  opcode = 0xA6;
  condition_mask = 1;
  block_mask = 0x40;
  semaphore_mask = 2;
}

abbrev banks : Banks
banks = record {
  srca_dvalid = λ i. true;
  srcb_dvalid = λ i. false;
  srcb_zeroed = λ i. false;
  unp_srca_bank = 0;
  unp_srcb_bank = 0;
  math_srca_bank = 0;
  math_srcb_bank = 0;
  mova2d_bank_valid = false;
  dest_dvalid = false;
}

abbrev syncs : Syncs
syncs = record { mutex = λ i. 0xFF; sem = λ i. 1; sem_max = λ i. 1 }

-- The matrix unit waits for SrcB; the semaphore has been posted.
check-stall_gate : check stall_gate banks syncs ≡ false
unfolding check
check-stall_gate = refl

check-sem_gate : check sem_gate banks syncs ≡ true
unfolding check selected_from
check-sem_gate = refl

check_stallwait_example :
    (check stall_gate banks syncs ≡ true) ↔ ((c : ℕ) → bit 0x180 c ≡ true → busy banks c ≡ false)
check_stallwait_example = check_stallwait stall_gate banks syncs refl refl

check_semwait_example : (check sem_gate banks syncs ≡ true) ↔ (
    (i : ℕ)
    → i < 8
    → bit 2 i ≡ true
    → (bit 1 0 ≡ true → syncs.sem i ≢ 0) × (bit 1 1 ≡ true → syncs.sem i < syncs.sem_max i))
check_semwait_example = check_semwait sem_gate banks syncs refl refl
