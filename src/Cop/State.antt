-- ===== src/Cop/State.antt =====
-- `struct tensix_thread_cop` and `struct tensix_cop`. The three memory callbacks are left out: they
-- are set and never called. A function that changes `*cop` returns the new coprocessor.
use rv32_emu.Base.{
  ℕ, ◌%◌, ◌^◌, Bool, true, false, Option, none, some, ltb, if◌then◌else◌, update, ℤ, pos, negsuc,
}
use rv32_emu.Core.{Core}
use rv32_emu.Fifo
use rv32_emu.Fifo.{Fifo}
use rv32_emu.Gate.{Gate}
use rv32_emu.Gate
use rv32_emu.Mop
use rv32_emu.Mop.{MopState, cleared}

abbrev pub u64 : ℕ → ℕ
u64 n = n % 2 ^ 64

pub data ThreadState : Type 0 where
  idle running waiting stalled : ThreadState

pub record Thread : Type 0 where
  pub insn_fifo : Fifo
  pub state : ThreadState
  pub wait_gate : Gate
  pub current_insn : ℕ
  pub has_current_insn : Bool
  pub direct_insn : ℕ
  pub has_direct_insn : Bool
  pub mop_cfg : ℕ → ℕ
  pub zmask_hi16 : ℕ
  pub mop_state : MopState
  pub insn_executed : ℕ
  pub cycles_idle : ℕ
  pub cycles_waiting : ℕ

pub record Cop (D : Type 0) : Type 0 where
  pub threads : ℕ → Thread
  pub core : Core D
  pub halted : Bool
  pub total_cycles : ℕ

abbrev pub num_cores : ℕ
num_cores = 3

-- The guard `core_id < 0 || core_id >= TENSIX_NUM_CORES`, as the index that passes it.
unfoldable pub thread_index : ℤ → Option ℕ
thread_index (pos n) = if ltb n num_cores then some n else none
thread_index (negsuc n) = none

-- `tensix_cop_init_thread`, which leaves the MOP registers and `zmask_hi16` alone.
unfoldable pub init_thread : Thread → Thread
unfolding Fifo.init
init_thread th = record th {
  insn_fifo = Fifo.init;
  state = idle;
  wait_gate = Gate.clear th.wait_gate;
  current_insn = 0;
  has_current_insn = false;
  direct_insn = 0;
  has_direct_insn = false;
  mop_state = cleared;
  insn_executed = 0;
  cycles_idle = 0;
  cycles_waiting = 0;
}

module _ {D : Type 0} where
  abbrev pub set_thread : Cop D → ℕ → Thread → Cop D
  set_thread cop t th = record cop { threads = update cop.threads t th }

  unfoldable pub reset : Cop D → Cop D
  unfolding init_thread
  reset cop =
      let t0 = set_thread cop 0 (init_thread (cop.threads 0)) in
      let t1 = set_thread t0 1 (init_thread (t0.threads 1)) in
      let t2 = set_thread t1 2 (init_thread (t1.threads 2)) in
      record t2 { halted = false; total_cycles = 0 }

  unfoldable pub halt : Cop D → Cop D
  halt cop = record cop { halted = true }

  unfoldable pub resume : Cop D → Cop D
  resume cop = record cop { halted = false }

  unfoldable pub push : Cop D → ℤ → ℕ → Cop D × Bool
  unfolding thread_index
  push cop core_id insn = elim (thread_index core_id) [
    | none ↦ (cop, false)
    | some t ↦
        let (fifo, ok) = Fifo.push (cop.threads t).insn_fifo insn in
        (set_thread cop t (record (cop.threads t) { insn_fifo = fifo }), ok)
  ]

  unfoldable pub set_direct : Cop D → ℤ → ℕ → Cop D
  unfolding thread_index
  set_direct cop core_id insn = elim (thread_index core_id) [
    | none ↦ cop
    | some t ↦
        set_thread cop t (record (cop.threads t) { direct_insn = insn; has_direct_insn = true })
  ]

  unfoldable pub is_waiting : Cop D → ℤ → Bool
  unfolding thread_index
  is_waiting cop core_id = elim (thread_index core_id) [
    | none ↦ false
    | some t ↦ (cop.threads t).wait_gate.active
  ]

  unfoldable pub fifo_empty : Cop D → ℤ → Bool
  unfolding thread_index
  fifo_empty cop core_id = elim (thread_index core_id) [
    | none ↦ true
    | some t ↦ Fifo.is_empty (cop.threads t).insn_fifo
  ]

  unfoldable pub fifo_full : Cop D → ℤ → Bool
  unfolding thread_index
  fifo_full cop core_id = elim (thread_index core_id) [
    | none ↦ false
    | some t ↦ Fifo.is_full (cop.threads t).insn_fifo
  ]

  -- The MOP entry point of `tensix_cop_mop_expand` on a thread.
  unfoldable pub mop_expand : Cop D → ℕ → ℕ → Cop D
  mop_expand cop t param =
      let th = cop.threads t in
      set_thread cop t (record th {
        mop_state = Mop.expand th.mop_cfg th.zmask_hi16 param;
        has_current_insn = false;
      })
