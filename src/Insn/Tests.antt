-- ===== src/Insn/Tests.antt =====
-- The instructions' theorems at concrete cores.
use native.Mathlib.Omega.{arith}
use rv32_emu.Base.{ℕ, ◌≡◌, ◌≢◌, refl, Bool, true, false, bit, field}
use rv32_emu.Core.{Core}
use rv32_emu.Cop.Tests.{core, cop, banks, syncs, waiting_gate}
use rv32_emu.Gate.{check, insn_opcode}
use rv32_emu.Matrix.Tests.{words_ops}
use rv32_emu.Insn.Sync.{ttatgetm, ttatrelm, ttsempost}
use rv32_emu.Insn.Banks.{ttcleardvalid, ttsetrwc}
use rv32_emu.Base.{List, [], ◌∷◌, ◌++◌}
use rv32_emu.Base.Ring.{window}
use rv32_emu.Insn.Thread.{ttreplay}
use rv32_emu.Insn.Recording.{record_all, record_all-ttreplay}
use rv32_emu.Insn.Dispatch.{execute_insn, execute_core, execute_config, execute_counters}
use rv32_emu.Insn.Semaphores.{check-ttsempost}
use rv32_emu.Insn.Mutexes.{owner-kept, ttatgetm-not_owner}
use rv32_emu.Insn.Handover.{InStep, IsInStep, ttsetrwc-IsInStep, ttcleardvalid-srca}
use rv32_emu.Insn.Held.{execute_insn-Held}
use rv32_emu.Insn.Compute.{execute_sfpu, execute_matrix}
use rv32_emu.Matrix.{ttelwadd}

selected : (i : ℕ) → bit 1 i ≡ true → bit (field 4 2 8) i ≡ true
selected i e = e

check-ttsempost_example :
    check waiting_gate (ttsempost core 4 1).0.banks (ttsempost core 4 1).0.syncs ≡ true
check-ttsempost_example =
    check-ttsempost core 4 1 waiting_gate refl refl refl (λ i lt e. selected i e)

-- Mutex 2 is thread 0's.
abbrev taken : Core Bool
taken = record core { syncs = record syncs { mutex = λ i. 0 } }

owner-kept_example :
    ((ttatgetm taken 2 1).0.syncs.mutex 2 ≡ 0) × ((ttatrelm taken 2 1).0.syncs.mutex 2 ≡ 0)
owner-kept_example = owner-kept taken 2 1 2 (omega arith) (omega arith)

ttatgetm-not_owner_example :
    ((ttatgetm taken 2 1).1 ≡ true) × ((ttatgetm taken 2 1).0.syncs.mutex 2 ≢ 1)
ttatgetm-not_owner_example = ttatgetm-not_owner taken 2 1 2 (omega arith) (omega arith) refl

banks-InStep : InStep (λ i. false) 0 0
banks-InStep = record {
  unp_lt = omega arith;
  math_lt = omega arith;
  one_owner = λ e. refl;
  two_owners = λ q. absurd (q refl);
}

banks-IsInStep : IsInStep banks
banks-IsInStep = record { srca = banks-InStep; srcb = banks-InStep }

-- CLR_A of a bank that the unpackers have handed over.
abbrev ready : Core Bool
ready = record core { banks = record banks { srca_dvalid = λ i. true; srcb_dvalid = λ i. true } }

ready-InStep : InStep (λ i. true) 0 0
ready-InStep = record {
  unp_lt = omega arith;
  math_lt = omega arith;
  one_owner = λ e. refl;
  two_owners = λ q. absurd (q refl);
}

ready-IsInStep : IsInStep ready.banks
ready-IsInStep = record { srca = ready-InStep; srcb = ready-InStep }

ttsetrwc-IsInStep_example : IsInStep (ttsetrwc ready 0x400000 1).0.banks
ttsetrwc-IsInStep_example = ttsetrwc-IsInStep ready 0x400000 1 ready-IsInStep

ttcleardvalid-srca_example : ¬ IsInStep (ttcleardvalid core 0x400000 1).0.banks
ttcleardvalid-srca_example = ttcleardvalid-srca core 0x400000 1 banks-IsInStep refl refl refl

-- ELWADD while the operands' banks are the unpackers'.
execute_insn-Held_example :
    (execute_insn words_ops (λ c t insn. (c.core, true)) cop 1 0x28000000).0 ≡ cop
unfolding execute_insn execute_core execute_config execute_counters execute_sfpu execute_matrix
    ttelwadd insn_opcode
execute_insn-Held_example =
    execute_insn-Held words_ops (λ c t insn. (c.core, true)) cop 1 0x28000000 (omega arith)
      (omega arith) refl

-- Two instructions recorded from slot 31 on, around the end of the buffer.
abbrev recorded : List ℕ
recorded = 7 ∷ 8 ∷ []

record_all-ttreplay_example :
    let replayed = record_all ((ttreplay core 0x7C021 1).0.replay 1) (recorded ++ (7 ∷ [])) in
    (window 32 2 31 replayed.buffer ≡ recorded) × (replayed.recording ≡ false)
record_all-ttreplay_example =
    record_all-ttreplay core 0x7C021 1 refl recorded (7 ∷ []) refl (omega arith) (omega arith)
