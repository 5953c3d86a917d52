-- ===== src/Cop/Direct.antt =====
-- The instructions that the processor cores execute in line: one at a time, after what waits in the
-- thread's FIFO, with the MOPs and replays that they start. The loops run on fuel; `none` is out of
-- fuel. `replay` of the core is that of the thread.
use rv32_emu.Base.{
  ℕ, zero, suc, ◌+◌, ◌-◌, ◌%◌, ◌^◌, Bool, true, false, not, Option, none, some, ◌==◌, leb,
  if◌then◌else◌, update, field, u32, ℤ, pos,
}
use rv32_emu.Core.{Replay}
use rv32_emu.Gate
use rv32_emu.Gate.{is_wait}
use rv32_emu.Mop
use rv32_emu.Mop.{MopState}
use rv32_emu.Cop.State.{Cop, waiting, set_thread, thread_index, u64}
use rv32_emu.Cop.Executor.{Executor}
use rv32_emu.Cop.Step.{step_thread, retire, gate_asks, auto_waits, drain}

-- The recording branch's writes to the replay buffer.
unfoldable pub record_insn : Replay → ℕ → Replay
record_insn r insn =
    let left = u32 (r.left + 2 ^ 32 - 1) in
    record r {
      buffer = update r.buffer (r.index % 32) insn;
      index = u32 (r.index + 1);
      left = left;
      recording = if left == 0 then false else r.recording;
    }

module _ {D : Type 0} where
  abbrev pub set_replay : Cop D → ℕ → Replay → Cop D
  set_replay cop t r = record cop { core = record cop.core { replay = update cop.core.replay t r } }

  -- `thread->current_insn = insn; thread->has_current_insn = true;`
  abbrev pub make_current : Cop D → ℕ → ℕ → Cop D
  make_current cop t insn =
      set_thread cop t (record (cop.threads t) { current_insn = insn; has_current_insn = true })

  abbrev pub set_has_direct : Cop D → ℕ → ℕ → Bool → Cop D
  set_has_direct cop t insn flag =
      set_thread cop t (record (cop.threads t) { direct_insn = insn; has_direct_insn = flag })

  -- The end of an instruction that the direct path has completed.
  abbrev pub finish : Cop D → ℕ → Cop D
  finish cop t = set_thread cop t (retire (record (cop.threads t) { has_direct_insn = false }))

module _ {D : Type 0} (ex : Executor D) where
  -- A step that is taken only if `test`; otherwise nothing is done and nothing is in the way.
  abbrev pub step_if : Bool → Cop D → ℕ → Cop D × Bool
  step_if test cop t = if test then step_thread ex cop t else (cop, true)

  unfoldable pub drain_replay : ℕ → Cop D → ℕ → Option (Cop D × Bool)
  drain_replay zero cop t = none
  drain_replay (suc fuel) cop t = elim (cop.core.replay t).expanding [
    | false ↦ some (cop, true)
    | true ↦
        let (retried, ok) = step_if (cop.threads t).has_current_insn cop t in
        elim ok [
          | false ↦ some (retried, false)
          | true ↦
              let r = retried.core.replay t in
              elim (leb r.expand_count r.expand_current) [
                | true ↦ some (set_replay retried t (record r { expanding = false }), true)
                | false ↦
                    let insn = r.buffer (u32 (r.expand_start + r.expand_current) % 32) in
                    let counted =
                      set_replay retried t
                        (record r { expand_current = u32 (r.expand_current + 1) }) in
                    let (played, ran) = step_thread ex (make_current counted t insn) t in
                    elim ran [ true ↦ drain_replay fuel played t | false ↦ some (played, false) ]
              ]
        ]
  ]

  abbrev pub set_mop : Cop D → ℕ → MopState → Cop D
  set_mop cop t st = set_thread cop t (record (cop.threads t) { mop_state = st })

  abbrev pub end_mop : Cop D → ℕ → Cop D
  end_mop cop t =
      let th = cop.threads t in finish (set_mop cop t (record th.mop_state { active = false })) t

  -- The loop over what the generator hands out.
  unfoldable pub mop_loop : ℕ → Cop D → ℕ → Option (Cop D × Bool)
  unfolding drain_replay
  mop_loop zero cop t = none
  mop_loop (suc fuel) cop t =
      let th = cop.threads t in
      elim (Mop.generate_next th.mop_cfg th.mop_state) [
        | none ↦ none
        | some (none, st) ↦ some (end_mop (set_mop cop t st) t, true)
        | some (some insn, st) ↦
            let (stepped, ran) = step_thread ex (make_current (set_mop cop t st) t insn) t in
            elim ran [
              | false ↦ some (stepped, false)
              | true ↦ elim (drain_replay fuel stepped t) [
                | none ↦ none
                | some (replayed, false) ↦ some (replayed, false)
                | some (replayed, true) ↦ mop_loop fuel replayed t
              ]
            ]
      ]

  -- A pending instruction is retried before the loop.
  abbrev pub retry_pending : ℕ → Cop D → ℕ → Option (Cop D × Bool)
  retry_pending fuel cop t = elim (cop.threads t).has_current_insn [
    | false ↦ some (cop, true)
    | true ↦
        let (stepped, ran) = step_thread ex cop t in
        elim ran [
          | false ↦ some (stepped, false)
          | true ↦
              drain_replay fuel
                (set_thread stepped t (record (stepped.threads t) { has_current_insn = false })) t
        ]
  ]

  unfoldable pub mop_continue : ℕ → Cop D → ℕ → Option (Cop D × Bool)
  unfolding drain_replay mop_loop
  mop_continue fuel cop t = elim (drain_replay fuel cop t) [
    | none ↦ none
    | some (replayed, false) ↦ some (replayed, false)
    | some (replayed, true) ↦ elim (retry_pending fuel replayed t) [
      | none ↦ none
      | some (retried, false) ↦ some (retried, false)
      | some (retried, true) ↦ mop_loop fuel retried t
    ]
  ]

  -- Held at the gate or by its operands: the direct instruction stays.
  abbrev pub hold : Cop D → ℕ → Cop D
  hold cop t = set_thread cop t (record (cop.threads t) { state = waiting })

  abbrev pub hold_counted : Cop D → ℕ → Cop D
  hold_counted cop t =
      let th = cop.threads t in
      set_thread cop t (record th { state = waiting; cycles_waiting = u64 (th.cycles_waiting + 1) })

  -- Executed, with the MOP or the replay that it started.
  unfoldable pub direct_execute : ℕ → Cop D → ℕ → ℕ → Option (Cop D × Bool)
  unfolding mop_continue drain_replay
  direct_execute fuel cop t insn =
      let (done, ok) = ex.execute cop t insn in
      elim ok [
        | false ↦ some (hold_counted done t, false)
        | true ↦ elim (Gate.insn_opcode insn == 0x01) [
          | true ↦ mop_continue fuel done t
          | false ↦ elim (drain_replay fuel done t) [
            | none ↦ none
            | some (replayed, false) ↦ some (replayed, false)
            | some (replayed, true) ↦ some (finish replayed t, true)
          ]
        ]
      ]

  unfoldable pub direct_ungated : ℕ → Cop D → ℕ → ℕ → Option (Cop D × Bool)
  unfolding direct_execute
  direct_ungated fuel cop t insn =
      let opcode = Gate.insn_opcode insn in
      let th = cop.threads t in
      if is_wait opcode
      then some (
        finish (set_thread cop t (record th { wait_gate = Gate.latch th.wait_gate insn })) t,
        true,
      )
      else (if auto_waits cop.core.banks opcode insn
          then some (hold cop t, false)
          else direct_execute fuel cop t insn)

  -- The direct instruction itself: recorded, or held back, or executed.
  unfoldable pub direct_insn_step : ℕ → Cop D → ℕ → Option (Cop D × Bool)
  unfolding direct_ungated record_insn
  direct_insn_step fuel cop t =
      let th = cop.threads t in
      let insn = th.direct_insn in
      let opcode = Gate.insn_opcode insn in
      let r = cop.core.replay t in
      if opcode == 0x03
      then some (finish (set_thread cop t (record th { zmask_hi16 = field insn 0 24 })) t, true)
      else (if r.recording
          then (let recorded = set_replay cop t (record_insn r insn) in
              some (
                finish
                    (if r.execute_while_loading then (ex.execute recorded t insn).0 else recorded)
                    t,
                true,
              ))
          else (if gate_asks th.wait_gate opcode
              then (if not (Gate.check th.wait_gate cop.core.banks cop.core.syncs)
                  then some (hold_counted cop t, false)
                  else direct_ungated fuel
                      (set_thread cop t (record th { wait_gate = Gate.clear th.wait_gate })) t insn)
              else direct_ungated fuel cop t insn))

  -- `while (mop_state.active)`, which keeps the direct instruction.
  unfoldable pub finish_mop : ℕ → ℕ → Cop D → ℕ → Option (Cop D × Bool)
  unfolding mop_continue
  finish_mop zero saved cop t = none
  finish_mop (suc fuel) saved cop t = elim (cop.threads t).mop_state.active [
    | false ↦ some (cop, true)
    | true ↦ elim (mop_continue fuel cop t) [
      | none ↦ none
      | some (blocked, false) ↦ some (set_has_direct blocked t saved true, false)
      | some (ended, true) ↦ finish_mop fuel saved (set_has_direct ended t saved true) t
    ]
  ]

  -- From the drain of the FIFO on.
  unfoldable pub direct_drained : ℕ → Cop D → ℕ → Option (Cop D × Bool)
  unfolding finish_mop direct_insn_step
  direct_drained fuel cop t = elim (drain ex fuel cop (pos t)) [
    | none ↦ none
    | some drained ↦ elim (finish_mop fuel (drained.threads t).direct_insn drained t) [
      | none ↦ none
      | some (blocked, false) ↦ some (blocked, false)
      | some (ended, true) ↦ direct_insn_step fuel ended t
    ]
  ]

  -- A MOP that is still expanding goes first; if it was not the direct instruction's own, that is
  -- restored.
  unfoldable pub step_direct_thread : ℕ → Cop D → ℕ → Option (Cop D × Bool)
  unfolding direct_drained mop_continue
  step_direct_thread fuel cop t =
      let th = cop.threads t in
      let saved = th.direct_insn in
      if cop.halted
      then some (cop, false)
      else (if not th.has_direct_insn
          then some (cop, true)
          else (if th.mop_state.active
              then elim (mop_continue fuel cop t) [
                | none ↦ none
                | some (blocked, false) ↦ some (set_has_direct blocked t saved true, false)
                | some (ended, true) ↦
                    if Gate.insn_opcode saved == 0x01
                    then some (ended, true)
                    else direct_drained fuel (set_has_direct ended t saved true) t
              ]
              else direct_drained fuel cop t))

  unfoldable pub step_direct : ℕ → Cop D → ℤ → Option (Cop D × Bool)
  unfolding step_direct_thread
  step_direct fuel cop core_id = elim (thread_index core_id) [
    | none ↦ some (cop, false)
    | some t ↦ step_direct_thread fuel cop t
  ]
