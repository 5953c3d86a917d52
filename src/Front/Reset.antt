-- ===== src/Front/Reset.antt =====
-- tensix_init, tensix_reset and tensix_clear of tensix_impl.c, with tensix_cop_init of
-- tensix_cop.c. The part of the state that is not modelled comes from a parameter each.
use rv32_emu.Base.{
  ℕ, ◌+◌, ◌*◌, ◌&&◌, true, false, none, some, ◌==◌, ltb, leb, if◌then◌else◌, update,
}
use rv32_emu.Core.{Core, Memory}
use rv32_emu.Fifo
use rv32_emu.Gate
use rv32_emu.Gate.{Gate}
use rv32_emu.Cop
use rv32_emu.Cop.{Cop, Thread, ThreadState, idle, init_thread}
use rv32_emu.Config.{tensix_cfg_offset_in_high_mem, cfg_reg_count}
use rv32_emu.Insn.{mutex_none}
use rv32_emu.Front.Zero.{zero_sfpu, zero_thread, zero_core}

-- The registers with constants: 0.8373, 0, 1.0 and -1.0 as bits, and twice the lane.
unfoldable pub hardwired : (ℕ → ℕ → ℕ) → ℕ → ℕ → ℕ
hardwired lreg r lane =
    if r == 8
    then 0x3F56594B
    else if r == 9
    then 0
    else if r == 10
    then 0x3F800000
    else if r == 11
    then 0xBF800000
    else if r == 15
    then 2 * lane
    else lreg r lane

-- High memory after the two calls of `memset`: the configuration stays.
unfoldable pub clear_high : (ℕ → ℕ) → ℕ → ℕ
clear_high high a =
    if ltb a tensix_cfg_offset_in_high_mem
    then 0
    else if leb (tensix_cfg_offset_in_high_mem + cfg_reg_count * 4) a && ltb a 0x600000
    then 0
    else high a

unfoldable pub clear_memory : Memory → Memory
unfolding clear_high
clear_memory mem = record mem {
  high_mem = elim mem.high_mem [ none ↦ none | some high ↦ some (clear_high high) ];
}

module _ {D : Type 0} where
  unfoldable pub cop_init : Core D → Cop D
  unfolding init_thread
  cop_init core = record {
    threads = λ t. init_thread zero_thread;
    core = core;
    halted = false;
    total_cycles = 0;
  }

  unfoldable pub tensix_init : Memory → D → Cop D
  unfolding cop_init hardwired
  tensix_init mem rest =
      let core = zero_core mem rest in
      cop_init (record core {
        syncs = record {
          mutex = λ i. mutex_none;
          sem = λ i. 0;
          sem_max = update (update (update (λ i. 0) 2 1) 4 1) 7 1;
        };
        sfpu = record zero_sfpu {
          lreg = hardwired (λ r lane. 0);
          lane_flags = λ lane. true;
          use_lane_flags = λ lane. true;
        };
        neginf = 0xFF800000;
      })

  -- `reset_rest` clears the packer's address.
  unfoldable pub tensix_reset : (D → D) → Cop D → Cop D
  unfolding Cop.reset
  tensix_reset reset_rest cop =
      let fresh = Cop.reset cop in
      let core = cop.core in
      record fresh {
        core = record core {
          banks = record core.banks {
            srca_dvalid = update (update core.banks.srca_dvalid 0 false) 1 false;
            srcb_dvalid = update (update core.banks.srcb_dvalid 0 false) 1 false;
            unp_srca_bank = 0;
            unp_srcb_bank = 0;
            math_srca_bank = 0;
            math_srcb_bank = 0;
            dest_dvalid = false;
          };
          syncs = record core.syncs { mutex = λ i. mutex_none; sem = λ i. 0 };
          srca = λ b row col. 0;
          srcb = λ b row col. 0;
          dest = λ row col. 0;
          pack_l1_write_offset = 0;
          rest = reset_rest core.rest;
        };
      }

  -- `wipe` clears the opaque part, less what survives a kernel.
  unfoldable pub tensix_clear : (D → D) → Cop D → Cop D
  unfolding hardwired clear_memory
  tensix_clear wipe cop =
      let core = cop.core in
      let wiped = zero_core (clear_memory core.memory) (wipe core.rest) in
      record {
        threads = λ t. record zero_thread {
          mop_cfg = (cop.threads t).mop_cfg;
          zmask_hi16 = (cop.threads t).zmask_hi16;
        };
        core = record wiped {
          syncs = record { mutex = λ i. mutex_none; sem = λ i. 0; sem_max = core.syncs.sem_max };
          sfpu = record zero_sfpu {
            lreg = hardwired (λ r lane. 0);
            lane_flags = core.sfpu.lane_flags;
            use_lane_flags = core.sfpu.use_lane_flags;
          };
          neginf = 0xFF800000;
        };
        halted = false;
        total_cycles = 0;
      }
