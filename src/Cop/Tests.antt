-- ===== src/Cop/Tests.antt =====
-- The step theorems on a coprocessor with a few instructions in its FIFOs.
use native.Mathlib.Omega.{arith}
use rv32_emu.Base.{◌+◌, ◌≡◌, refl, Bool, true, false, some, pos}
use rv32_emu.Core.{Core, Banks, Syncs, Memory, Sfpu}
use rv32_emu.Mailbox.{Mailbox}
use rv32_emu.Fifo.{Fifo, fifo_size}
use rv32_emu.Fifo.Refine
use rv32_emu.Gate.{Gate}
use rv32_emu.Mop.{cleared}
use rv32_emu.Cop.State.{Cop, Thread, running, thread_index}
use rv32_emu.Cop.Executor.{Executor}
use rv32_emu.Cop.Step.{step_thread, run_until_wait, drain}
use rv32_emu.Cop.Pending.{pending}
use rv32_emu.Cop.Order.{Result, step_thread-Result}
use rv32_emu.Cop.Drain.{Prefix, run-Prefix, drain-total}

-- An executor that completes every instruction.
abbrev pub completes : Executor Bool
completes = record {
  execute = λ cop t insn. (cop, true);
  fifo_kept = λ cop t insn. refl;
  none_pending = λ cop t insn e. e;
  others_kept = λ cop t insn u ne. refl;
}

-- A SETRWC behind a gate that waits for semaphore 0, which is zero.
abbrev pub waiting_gate : Gate
waiting_gate = record {
  active = true;
  opcode = 0xA6;
  condition_mask = 1;
  block_mask = 0x40;
  semaphore_mask = 1;
  target_value = 0;
  stream_select = 0;
}

abbrev pub two_insns : Fifo
two_insns = record { buffer = λ i. 0x37000000; head = 0; tail = 2; count = 2 }

abbrev pub thread : Thread
thread = record {
  insn_fifo = two_insns;
  state = running;
  wait_gate = waiting_gate;
  current_insn = 0;
  has_current_insn = false;
  direct_insn = 0;
  has_direct_insn = false;
  mop_cfg = λ i. 0;
  zmask_hi16 = 0;
  mop_state = cleared;
  insn_executed = 0;
  cycles_idle = 0;
  cycles_waiting = 0;
}

abbrev pub boxes : Mailbox
boxes = record { fifo = λ s d i. 0; head = λ s d. 0; count = λ s d. 0; stall = λ c. false }

abbrev pub banks : Banks
banks = record {
  srca_dvalid = λ i. false;
  srcb_dvalid = λ i. false;
  srcb_zeroed = λ i. false;
  unp_srca_bank = 0;
  unp_srcb_bank = 0;
  math_srca_bank = 0;
  math_srcb_bank = 0;
  mova2d_bank_valid = false;
  dest_dvalid = false;
}

abbrev pub syncs : Syncs
syncs = record { mutex = λ i. 0xFF; sem = λ i. 0; sem_max = λ i. 1 }

abbrev pub memory : Memory
memory = record { high_mem = some (λ a. 0); ldm = λ t. some (λ a. 0) }

abbrev pub sfpu : Sfpu
sfpu = record {
  lreg = λ r l. 5;
  lane_flags = λ l. true;
  use_lane_flags = λ l. true;
  stack_lane_flags = λ i l. false;
  stack_use_lane_flags = λ i l. false;
  depth = 0;
  prng_state = λ l. 0;
}

abbrev pub core : Core Bool
core = record {
  mailbox = boxes;
  banks = banks;
  syncs = syncs;
  replay = λ t. record {
    buffer = λ i. 0;
    index = 0;
    left = 0;
    execute_while_loading = false;
    recording = false;
    expanding = false;
    expand_start = 0;
    expand_count = 0;
    expand_current = 0;
  };
  rwc = λ t. record {
    srca = 0;
    srca_cr = 0;
    srcb = 0;
    srcb_cr = 0;
    dest = 0;
    dest_cr = 0;
    fidelity = 0;
  };
  dma_reg = λ t i. 0;
  thd_reg = λ t i. 0;
  memory = memory;
  counters = λ u. record { value = λ c d. 0; cr = λ c d. 0 };
  sfpu = sfpu;
  dest = λ r c. 0;
  pack_l1_write_offset = 7;
  srca = λ b r c. 0x3F800000;
  srcb = λ b r c. 0x40000000;
  neginf = 0xFF800000;
  dbg_array_rd_cmd = 0;
  rest = true;
}

abbrev pub cop : Cop Bool
cop = record { threads = λ t. thread; core = core; halted = false; total_cycles = 0 }

pub two_insns-IsValid : Refine.IsValid two_insns
two_insns-IsValid = record {
  head_lt = omega arith;
  tail_lt = omega arith;
  count_le = omega arith;
  tail_eq = refl;
}

step_thread-Result_example : Result 1 (pending thread) cop (step_thread completes cop 1)
step_thread-Result_example = step_thread-Result completes 1 cop two_insns-IsValid

is_thread1 : thread_index (pos 1) ≡ some 1
unfolding thread_index
is_thread1 = refl

run-Prefix_example :
    Prefix completes (pos 1) 1 is_thread1 5 cop (run_until_wait completes 5 cop (pos 1))
run-Prefix_example = run-Prefix completes (pos 1) 1 is_thread1 5 cop two_insns-IsValid

drain-total_example : (cop' : Cop Bool) × (drain completes (fifo_size + 2) cop (pos 1) ≡ some cop')
drain-total_example = drain-total completes (pos 1) 1 is_thread1 cop two_insns-IsValid
