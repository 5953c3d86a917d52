-- ===== src/Core.antt =====
-- The parts of `struct tensix` (tensix.h) that the coprocessor and the instructions modelled here
-- read and write, grouped by component. What is left, the registers of the unpackers and the packer
-- above all, is one field of a type `D` that the development never looks into.
use rv32_emu.Base.{ℕ, Bool, Option}
use rv32_emu.Mailbox.{Mailbox}

-- Two banks each of SrcA and SrcB: a set dvalid gives the bank to the matrix unit, a clear one to
-- the unpackers. The unpackers and the matrix unit each point at one of the two.
pub record Banks : Type 0 where
  pub srca_dvalid : ℕ → Bool
  pub srcb_dvalid : ℕ → Bool
  pub srcb_zeroed : ℕ → Bool
  pub unp_srca_bank : ℕ
  pub unp_srcb_bank : ℕ
  pub math_srca_bank : ℕ
  pub math_srcb_bank : ℕ
  pub mova2d_bank_valid : Bool
  pub dest_dvalid : Bool

-- `mutex[8]`, `sem[8]`, `sem_max[8]`.
pub record Syncs : Type 0 where
  pub mutex : ℕ → ℕ
  pub sem : ℕ → ℕ
  pub sem_max : ℕ → ℕ

-- The replay buffer of one thread, what records into it and what plays from it: the entries
-- `[tid]` of the `replay_*` arrays.
pub record Replay : Type 0 where
  pub buffer : ℕ → ℕ
  pub index : ℕ
  pub left : ℕ
  pub execute_while_loading : Bool
  pub recording : Bool
  pub expanding : Bool
  pub expand_start : ℕ
  pub expand_count : ℕ
  pub expand_current : ℕ

-- The read-write counters of one thread: the entries `[tid]` of `srca_rwc` to `fidelity`.
pub record Rwc : Type 0 where
  pub srca : ℕ
  pub srca_cr : ℕ
  pub srcb : ℕ
  pub srcb_cr : ℕ
  pub dest : ℕ
  pub dest_cr : ℕ
  pub fidelity : ℕ

-- `tensix_memory_t`: the regions as bytes, `none` for a null pointer. `ldm` holds `t0_ldm` to
-- `t2_ldm`; the L1 scratchpad is the data path's.
pub record Memory : Type 0 where
  pub high_mem : Option (ℕ → ℕ)
  pub ldm : ℕ → Option (ℕ → ℕ)

-- The address counters of one unit: `ch0_x` to `ch1_w` and `ch0_x_cr` to `ch1_w_cr` of `AddrCtrl`,
-- by channel and dimension (X, Y, Z, W in that order).
pub record Counters : Type 0 where
  pub value : ℕ → ℕ → ℕ
  pub cr : ℕ → ℕ → ℕ

-- The vector unit: its registers by number and lane, the lane predication, and the stack of saved
-- predications. `depth` is `flag_stack_top + 1`, the number of entries in use.
pub record Sfpu : Type 0 where
  pub lreg : ℕ → ℕ → ℕ
  pub lane_flags : ℕ → Bool
  pub use_lane_flags : ℕ → Bool
  pub stack_lane_flags : ℕ → ℕ → Bool
  pub stack_use_lane_flags : ℕ → ℕ → Bool
  pub depth : ℕ
  pub prng_state : ℕ → ℕ

-- `srca` and `srcb` by bank, row and column, and `dest` by row and column, hold the bit patterns of
-- the floats, and so does `neginf`.
pub record Core (D : Type 0) : Type 0 where
  pub mailbox : Mailbox
  pub banks : Banks
  pub syncs : Syncs
  pub replay : ℕ → Replay
  pub rwc : ℕ → Rwc
  pub dma_reg : ℕ → ℕ → ℕ
  pub thd_reg : ℕ → ℕ → ℕ
  pub memory : Memory
  pub counters : ℕ → Counters
  pub sfpu : Sfpu
  pub srca : ℕ → ℕ → ℕ → ℕ
  pub srcb : ℕ → ℕ → ℕ → ℕ
  pub dest : ℕ → ℕ → ℕ
  pub neginf : ℕ
  pub pack_l1_write_offset : ℕ
  pub dbg_array_rd_cmd : ℕ
  pub rest : D
