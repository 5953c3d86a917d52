-- ===== src/Cop/Step.antt =====
-- One step of a thread from its FIFO, over any executor (tensix_cop_step and what runs it).
use rv32_emu.Base.{
  ℕ, zero, suc, ◌+◌, Bool, true, false, not, ◌&&◌, ◌||◌, Option, none, some, List, [], ◌∷◌, ◌==◌,
  if◌then◌else◌, field, bit_and, elem, ℤ, pos,
}
use rv32_emu.Core.{Banks}
use rv32_emu.Fifo
use rv32_emu.Gate
use rv32_emu.Gate.{Gate, is_wait}
use rv32_emu.Cop.State.{Cop, Thread, idle, running, waiting, set_thread, thread_index, u64}
use rv32_emu.Cop.Executor.{Executor}

abbrev opcode_mop_cfg : ℕ
opcode_mop_cfg = 0x03

abbrev opcode_unpacr : ℕ
opcode_unpacr = 0x42

abbrev pub srca_opcodes : List ℕ
srca_opcodes =
    0x28 ∷ 0x27 ∷ 0x30 ∷ 0x29 ∷ 0x26 ∷ 0x22 ∷ 0x23 ∷ 0x24 ∷ 0x25 ∷ 0x31 ∷ 0x32 ∷ 0x33 ∷ 0x34 ∷ 0x3A
    ∷ 0x12 ∷ []

abbrev pub srcb_opcodes : List ℕ
srcb_opcodes = 0x28 ∷ 0x27 ∷ 0x30 ∷ 0x29 ∷ 0x26 ∷ 0x22 ∷ 0x23 ∷ []

unfoldable pub insn_needs_srca : ℕ → Bool
insn_needs_srca opcode = elem opcode srca_opcodes

unfoldable pub insn_needs_srcb : ℕ → Bool
insn_needs_srcb opcode = elem opcode srcb_opcodes

unfoldable pub insn_needs_dest : ℕ → Bool
insn_needs_dest opcode = opcode == 0x41

-- The auto-wait of the matrix unit, the packer and the unpackers, in the order of the checks.
unfoldable pub auto_waits : Banks → ℕ → ℕ → Bool
auto_waits banks opcode insn =
    insn_needs_srca opcode && not (banks.srca_dvalid banks.math_srca_bank)
    || (insn_needs_srcb opcode && not (banks.srcb_dvalid banks.math_srcb_bank)
        || (insn_needs_dest opcode && not banks.dest_dvalid
            || opcode == opcode_unpacr
              && (field insn 23 1 == 0 && banks.srca_dvalid banks.unp_srca_bank
                  || field insn 23 1 == 1 && banks.srcb_dvalid banks.unp_srcb_bank)))

-- Whether an active gate has to be asked: the instruction needs one of the units it holds back. A
-- NOP needs none, and all of them against a full mask.
unfoldable pub gate_asks : Gate → ℕ → Bool
gate_asks g opcode =
    let bits =
      if opcode == 0x02 && g.block_mask == 0x1FF then 0x1FF else Gate.insn_get_block_bits opcode in
    g.active && not (bit_and bits g.block_mask == 0)

-- An instruction that could not go on is the pending one.
abbrev pub park : Thread → ℕ → Thread
park th insn = record th { current_insn = insn; has_current_insn = true; state = waiting }

abbrev pub park_counted : Thread → ℕ → Thread
park_counted th insn = record (park th insn) { cycles_waiting = u64 (th.cycles_waiting + 1) }

abbrev pub retire : Thread → Thread
retire th = record th { state = running; insn_executed = u64 (th.insn_executed + 1) }

-- The pending instruction if there is one, else the next of the FIFO.
unfoldable pub fetch : Thread → Option (ℕ × Thread)
fetch th =
    if th.has_current_insn
    then some (th.current_insn, record th { has_current_insn = false })
    else elim (Fifo.pop th.insn_fifo) [
      | none ↦ none
      | some (insn, fifo) ↦ some (insn, record th { insn_fifo = fifo })
    ]

module _ {D : Type 0} (ex : Executor D) where
  abbrev retire_at : Cop D → ℕ → Cop D
  retire_at cop t = set_thread cop t (retire (cop.threads t))

  -- The instruction executed, or parked when the executor does not complete it.
  unfoldable pub step_execute : Cop D → ℕ → ℕ → Cop D × Bool
  step_execute cop t insn =
      let (cop', ok) = ex.execute cop t insn in
      if ok
      then (retire_at cop' t, true)
      else (set_thread cop' t (park_counted (cop'.threads t) insn), false)

  -- Past the gate: a wait instruction is latched, any other waits for its data or is executed.
  unfoldable pub step_ungated : Cop D → ℕ → ℕ → Cop D × Bool
  unfolding step_execute auto_waits
  step_ungated cop t insn =
      let opcode = Gate.insn_opcode insn in
      let th = cop.threads t in
      if is_wait opcode
      then (
        set_thread cop t (retire (record th { wait_gate = Gate.latch th.wait_gate insn })),
        true,
      )
      else if auto_waits cop.core.banks opcode insn
      then (set_thread cop t (park th insn), false)
      else step_execute cop t insn

  -- What a step does with the instruction it fetched.
  unfoldable pub step_fetched : Cop D → ℕ → ℕ → Cop D × Bool
  unfolding step_ungated gate_asks
  step_fetched cop t insn =
      let opcode = Gate.insn_opcode insn in
      let th = cop.threads t in
      if opcode == opcode_mop_cfg
      then (set_thread cop t (retire (record th { zmask_hi16 = field insn 0 24 })), true)
      else if gate_asks th.wait_gate opcode
      then if not (Gate.check th.wait_gate cop.core.banks cop.core.syncs)
        then (set_thread cop t (park_counted th insn), false)
        else step_ungated (set_thread cop t (record th { wait_gate = Gate.clear th.wait_gate })) t
            insn
      else step_ungated cop t insn

  -- A step of thread `t`, the guards on `core_id` passed.
  unfoldable pub step_thread : Cop D → ℕ → Cop D × Bool
  unfolding step_fetched fetch
  step_thread cop t = if cop.halted then (cop, false) else elim (fetch (cop.threads t)) [
    | none ↦
        let th = cop.threads t in
        (
          set_thread cop t (record th { state = idle; cycles_idle = u64 (th.cycles_idle + 1) }),
          false,
        )
    | some (insn, th) ↦ step_fetched (set_thread cop t th) t insn
  ]

  unfoldable pub step : Cop D → ℤ → Cop D × Bool
  unfolding step_thread thread_index
  step cop core_id = elim (thread_index core_id) [
    | none ↦ (cop, false)
    | some t ↦ step_thread cop t
  ]

  abbrev pub count : Bool → ℕ
  count true = 1
  count false = 0

  unfoldable pub step_all : Cop D → Cop D × ℕ
  unfolding step
  step_all cop =
      let (cop0, ran0) = step cop (pos 0) in
      let (cop1, ran1) = step cop0 (pos 1) in
      let (cop2, ran2) = step cop1 (pos 2) in
      (
        record cop2 { total_cycles = u64 (cop2.total_cycles + 1) },
        count ran0 + count ran1 + count ran2,
      )

  -- The loop of at most `max_insns` turns, and the number of instructions executed.
  unfoldable pub run_until_wait : ℕ → Cop D → ℤ → Cop D × ℕ
  unfolding step
  run_until_wait zero cop core_id = (cop, 0)
  run_until_wait (suc max_insns) cop core_id =
      let (cop', ran) = step cop core_id in
      elim ran [
        | true ↦
            let (last, executed) = run_until_wait max_insns cop' core_id in (last, suc executed)
        | false ↦ (cop', 0)
      ]

  unfoldable pub run_until_wait_all : ℕ → Cop D → Cop D × ℕ
  unfolding run_until_wait
  run_until_wait_all max_insns cop =
      let (cop0, n0) = run_until_wait max_insns cop (pos 0) in
      let (cop1, n1) = run_until_wait max_insns cop0 (pos 1) in
      let (cop2, n2) = run_until_wait max_insns cop1 (pos 2) in (cop2, n0 + n1 + n2)

  -- `while (tensix_cop_step(cop, core_id));` on fuel; `none` is out of fuel.
  unfoldable pub drain : ℕ → Cop D → ℤ → Option (Cop D)
  unfolding step
  drain zero cop core_id = none
  drain (suc fuel) cop core_id =
      let (cop', ran) = step cop core_id in
      elim ran [ true ↦ drain fuel cop' core_id | false ↦ some cop' ]
