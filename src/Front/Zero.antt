-- ===== src/Front/Zero.antt =====
-- The state that `memset` with zeros leaves, by its parts; the memory regions and the opaque part
-- are given.
use rv32_emu.Base.{false}
use rv32_emu.Core.{Core, Memory, Banks, Replay, Rwc, Sfpu}
use rv32_emu.Mailbox.{Mailbox}
use rv32_emu.Mop.{cleared}
use rv32_emu.Cop.{Thread, idle}

abbrev pub zero_mailbox : Mailbox
zero_mailbox = record {
  fifo = λ src dst i. 0;
  head = λ src dst. 0;
  count = λ src dst. 0;
  stall = λ core. false;
}

abbrev pub zero_banks : Banks
zero_banks = record {
  srca_dvalid = λ b. false;
  srcb_dvalid = λ b. false;
  srcb_zeroed = λ b. false;
  unp_srca_bank = 0;
  unp_srcb_bank = 0;
  math_srca_bank = 0;
  math_srcb_bank = 0;
  mova2d_bank_valid = false;
  dest_dvalid = false;
}

abbrev pub zero_replay : Replay
zero_replay = record {
  buffer = λ i. 0;
  index = 0;
  left = 0;
  execute_while_loading = false;
  recording = false;
  expanding = false;
  expand_start = 0;
  expand_count = 0;
  expand_current = 0;
}

abbrev pub zero_rwc : Rwc
zero_rwc = record {
  srca = 0;
  srca_cr = 0;
  srcb = 0;
  srcb_cr = 0;
  dest = 0;
  dest_cr = 0;
  fidelity = 0;
}

abbrev pub zero_sfpu : Sfpu
zero_sfpu = record {
  lreg = λ r lane. 0;
  lane_flags = λ lane. false;
  use_lane_flags = λ lane. false;
  stack_lane_flags = λ i lane. false;
  stack_use_lane_flags = λ i lane. false;
  depth = 0;
  prng_state = λ lane. 0;
}

abbrev pub zero_thread : Thread
zero_thread = record {
  insn_fifo = record { buffer = λ i. 0; head = 0; tail = 0; count = 0 };
  state = idle;
  wait_gate = record {
    active = false;
    opcode = 0;
    condition_mask = 0;
    block_mask = 0;
    semaphore_mask = 0;
    target_value = 0;
    stream_select = 0;
  };
  current_insn = 0;
  has_current_insn = false;
  direct_insn = 0;
  has_direct_insn = false;
  mop_cfg = λ i. 0;
  zmask_hi16 = 0;
  mop_state = cleared;
  insn_executed = 0;
  cycles_idle = 0;
  cycles_waiting = 0;
}

module _ {D : Type 0} where
  -- A core of zeros, with the given memory regions and the given opaque part.
  abbrev pub zero_core : Memory → D → Core D
  zero_core mem rest = record {
    mailbox = zero_mailbox;
    banks = zero_banks;
    syncs = record { mutex = λ i. 0; sem = λ i. 0; sem_max = λ i. 0 };
    replay = λ t. zero_replay;
    rwc = λ t. zero_rwc;
    dma_reg = λ t r. 0;
    thd_reg = λ t r. 0;
    memory = mem;
    counters = λ u. record { value = λ c d. 0; cr = λ c d. 0 };
    sfpu = zero_sfpu;
    srca = λ b row col. 0;
    srcb = λ b row col. 0;
    dest = λ row col. 0;
    neginf = 0;
    pack_l1_write_offset = 0;
    dbg_array_rd_cmd = 0;
    rest = rest;
  }
