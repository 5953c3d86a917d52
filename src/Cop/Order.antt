-- ===== src/Cop/Order.antt =====
-- A thread executes the instructions pushed to it in order, each once: what a step does to the
-- instructions that wait.
use rv32_emu.Base.{
  ℕ, ◌+◌, ◌≡◌, ◌≢◌, refl, sym, ap, ◌∙◌, subst, Bool, true, false, not, none, some, List, ◌∷◌, ◌==◌,
  Bool-cases, inl, inr, update-ne, field,
}
use rv32_emu.Fifo.Refine
use rv32_emu.Gate
use rv32_emu.Gate.{is_wait}
use rv32_emu.Cop.State.{Cop, Thread, idle, u64, set_thread}
use rv32_emu.Cop.Executor.{Executor}
use rv32_emu.Cop.Step.{
  fetch, park, park_counted, retire, step_execute, step_ungated, step_fetched, step_thread,
  auto_waits, gate_asks,
}
use rv32_emu.Cop.Pending.{
  pending, Consumes, pending-fresh, pending-parked, Fetched, nothing, fetched, fetch-Fetched,
  set_thread_self, pending-retire, pending-gate, pending-zmask, pending-idle,
}

-- What a step of thread `t` leaves, `before` the instructions that wait when it starts.
pub record Result {D : Type 0} (t : ℕ) (before : List ℕ) (cop : Cop D) (r : Cop D × Bool)
    : Type 0 where
  pub words : Consumes before (pending (r.0.threads t)) r.1
  pub fifo_ok : Refine.IsValid (r.0.threads t).insn_fifo
  pub others : (u : ℕ) → u ≢ t → r.0.threads u ≡ cop.threads u

module _ {D : Type 0} (ex : Executor D) (t : ℕ) where
  -- What a step function that is given an instruction does with it.
  abbrev Takes : Cop D → ℕ → Cop D × Bool → Type 0
  Takes cop insn r = Result t (insn ∷ pending (cop.threads t)) cop r

  -- The thread has its pending instruction taken and a valid FIFO.
  abbrev Ready : Cop D → Type 0
  Ready cop = ((cop.threads t).has_current_insn ≡ false) × Refine.IsValid (cop.threads t).insn_fifo

  pub set_thread-others :
      (cop : Cop D) (th : Thread) (u : ℕ) → u ≢ t → (set_thread cop t th).threads u ≡ cop.threads u
  set_thread-others cop th u ne = update-ne cop.threads t u th ne

  fifo_set :
      (cop : Cop D) (th : Thread)
      → Refine.IsValid th.insn_fifo
      → Refine.IsValid ((set_thread cop t th).threads t).insn_fifo
  fifo_set cop th v =
      subst (λ (x : Thread). Refine.IsValid x.insn_fifo) (sym (set_thread_self cop t th)) v

  parks :
      (cop : Cop D) (insn : ℕ) (th : Thread)
      → pending th ≡ insn ∷ pending (cop.threads t)
      → Refine.IsValid th.insn_fifo
      → Takes cop insn (set_thread cop t th, false)
  unfolding Consumes
  parks cop insn th e v = record {
    words = ap pending (set_thread_self cop t th) ∙ e;
    fifo_ok = fifo_set cop th v;
    others = set_thread-others cop th;
  }

  runs :
      (cop : Cop D) (insn : ℕ) (th : Thread)
      → pending th ≡ pending (cop.threads t)
      → Refine.IsValid th.insn_fifo
      → Takes cop insn (set_thread cop t th, true)
  unfolding Consumes
  runs cop insn th e v = record {
    words = (insn, ap (λ q. insn ∷ q) (sym (ap pending (set_thread_self cop t th) ∙ e)));
    fifo_ok = fifo_set cop th v;
    others = set_thread-others cop th;
  }

  -- Parking a thread that has no pending instruction.
  pending-park :
      (th : Thread) (insn : ℕ)
      → th.has_current_insn ≡ false
      → (pending (park th insn) ≡ insn ∷ pending th)
        × (pending (park_counted th insn) ≡ insn ∷ pending th)
  pending-park th insn e = (
    pending-parked _ refl ∙ ap (λ q. insn ∷ q) (sym (pending-fresh th e)),
    pending-parked _ refl ∙ ap (λ q. insn ∷ q) (sym (pending-fresh th e)),
  )

  -- The same from a coprocessor whose thread `t` has the same instructions waiting.
  from :
      (cop cop' : Cop D) (insn : ℕ) {r : Cop D × Bool}
      → pending (cop'.threads t) ≡ pending (cop.threads t)
      → ((u : ℕ) → u ≢ t → cop'.threads u ≡ cop.threads u)
      → Takes cop' insn r
      → Takes cop insn r
  from cop cop' insn {r} same rest taken = record {
    words = subst (λ q. Consumes (insn ∷ q) (pending (r.0.threads t)) r.1) same taken.words;
    fifo_ok = taken.fifo_ok;
    others = λ u ne. taken.others u ne ∙ rest u ne;
  }

  step_execute-Takes :
      (cop : Cop D) (insn : ℕ) → Ready cop → Takes cop insn (step_execute ex cop t insn)
  unfolding step_execute
  step_execute-Takes cop insn (fresh, v) =
      let after : Cop D = (ex.execute cop t insn).0 in
      let fresh' = ex.none_pending cop t insn fresh in
      let fifo = ex.fifo_kept cop t insn in
      let same : pending (after.threads t) ≡ pending (cop.threads t) =
        pending-fresh _ fresh' ∙ ap Refine.view fifo ∙ sym (pending-fresh _ fresh) in
      let v' = subst Refine.IsValid (sym fifo) v in
      from cop after insn same (ex.others_kept cop t insn)
        (elim (Bool-cases (ex.execute cop t insn).1) [
          | inl ok ↦ rw ok (runs after insn (retire (after.threads t)) (pending-retire _) v')
          | inr stuck ↦ rw stuck (
              parks after insn (park_counted (after.threads t) insn) (pending-park _ insn fresh').1
                v')
        ])

  set-Ready :
      (cop : Cop D) (th : Thread)
      → th.has_current_insn ≡ false
      → Refine.IsValid th.insn_fifo
      → Ready (set_thread cop t th)
  set-Ready cop th e v =
      (ap (λ (x : Thread). x.has_current_insn) (set_thread_self cop t th) ∙ e, fifo_set cop th v)

  step_ungated-Takes :
      (cop : Cop D) (insn : ℕ) → Ready cop → Takes cop insn (step_ungated ex cop t insn)
  unfolding step_ungated
  step_ungated-Takes cop insn (fresh, v) =
      let th : Thread = cop.threads t in
      elim (Bool-cases (is_wait (Gate.insn_opcode insn))) [
        | inl waits ↦ rw waits (
            runs cop insn (retire (record th { wait_gate = Gate.latch th.wait_gate insn }))
              (pending-retire _ ∙ pending-gate th _) v)
        | inr other ↦ elim (Bool-cases (auto_waits cop.core.banks (Gate.insn_opcode insn) insn)) [
          | inl held ↦
              rw (other, held) (parks cop insn (park th insn) (pending-park th insn fresh).0 v)
          | inr free ↦ rw (other, free) (step_execute-Takes cop insn (fresh, v))
        ]
      ]

  step_fetched-Takes :
      (cop : Cop D) (insn : ℕ) → Ready cop → Takes cop insn (step_fetched ex cop t insn)
  unfolding step_fetched
  step_fetched-Takes cop insn (fresh, v) =
      let th : Thread = cop.threads t in
      let opcode : ℕ = Gate.insn_opcode insn in
      elim (Bool-cases (opcode == 0x03)) [
        | inl cfg ↦ rw cfg (
            runs cop insn (retire (record th { zmask_hi16 = field insn 0 24 }))
              (pending-retire _ ∙ pending-zmask th _) v)
        | inr plain ↦ elim (Bool-cases (gate_asks th.wait_gate opcode)) [
          | inr passes ↦ rw (plain, passes) (step_ungated-Takes cop insn (fresh, v))
          | inl asks ↦
              elim (Bool-cases (not (Gate.check th.wait_gate cop.core.banks cop.core.syncs))) [
                | inl shut ↦
                    rw (plain, asks, shut)
                      (parks cop insn (park_counted th insn) (pending-park th insn fresh).1 v)
                | inr opens ↦
                    let open_th : Thread = record th { wait_gate = Gate.clear th.wait_gate } in
                    rw (plain, asks, opens)
                      (from cop (set_thread cop t open_th) insn
                        (ap pending (set_thread_self cop t open_th) ∙ pending-gate th _)
                        (set_thread-others cop open_th)
                        (step_ungated-Takes (set_thread cop t open_th) insn
                          (set-Ready cop open_th fresh v)))
              ]
        ]
      ]

  pub step_thread-halted : (cop : Cop D) → cop.halted ≡ true → step_thread ex cop t ≡ (cop, false)
  unfolding step_thread
  step_thread-halted cop e = simp e refl

  pub step_thread-idle :
      (cop : Cop D)
      → cop.halted ≡ false
      → fetch (cop.threads t) ≡ none
      → step_thread ex cop t ≡ (
        set_thread cop t (record (cop.threads t) {
          state = idle;
          cycles_idle = u64 ((cop.threads t).cycles_idle + 1);
        }),
        false,
      )
  unfolding step_thread
  step_thread-idle cop on gone = simp (step_thread, on, gone) refl

  pub step_thread-fetched :
      (cop : Cop D) {insn : ℕ} {th : Thread}
      → cop.halted ≡ false
      → fetch (cop.threads t) ≡ some (insn, th)
      → step_thread ex cop t ≡ step_fetched ex (set_thread cop t th) t insn
  unfolding step_thread step_fetched
  step_thread-fetched cop on found = simp (step_thread, on, found) refl

  halted-Result :
      (cop : Cop D)
      → Refine.IsValid (cop.threads t).insn_fifo
      → Result t (pending (cop.threads t)) cop (cop, false)
  unfolding Consumes
  halted-Result cop v = record { words = refl; fifo_ok = v; others = λ u ne. refl }

  idle-Result :
      (cop : Cop D) (th : Thread)
      → Refine.IsValid th.insn_fifo
      → pending th ≡ pending (cop.threads t)
      → Result t (pending (cop.threads t)) cop (set_thread cop t th, false)
  unfolding Consumes
  idle-Result cop th v same = record {
    words = ap pending (set_thread_self cop t th) ∙ same;
    fifo_ok = fifo_set cop th v;
    others = set_thread-others cop th;
  }

  fetched-Result :
      (cop : Cop D) (th : Thread) (insn : ℕ) {r : Cop D × Bool}
      → pending (cop.threads t) ≡ insn ∷ pending th
      → Takes (set_thread cop t th) insn r
      → Result t (pending (cop.threads t)) cop r
  fetched-Result cop th insn {r} words taken = record {
    words =
        subst (λ q. Consumes q (pending (r.0.threads t)) r.1)
          (ap (λ q. insn ∷ q) (ap pending (set_thread_self cop t th)) ∙ sym words) taken.words;
    fifo_ok = taken.fifo_ok;
    others = λ u ne. taken.others u ne ∙ set_thread-others cop th u ne;
  }

  -- From a valid FIFO, a step of a thread over any lawful executor either runs, and then takes
  -- exactly the first of the instructions that wait (the pending one before those of the FIFO),
  -- or does not run, and then leaves all of them waiting in the same order; the FIFO stays valid
  -- and no other thread's record changes.
  pub step_thread-Result :
      (cop : Cop D)
      → Refine.IsValid (cop.threads t).insn_fifo
      → Result t (pending (cop.threads t)) cop (step_thread ex cop t)
  step_thread-Result cop v = elim (Bool-cases cop.halted) [
    | inl stopped ↦
        subst (Result t (pending (cop.threads t)) cop) (sym (step_thread-halted cop stopped))
          (halted-Result cop v)
    | inr on ↦ by_fetch on (fetch-Fetched (cop.threads t) v)
  ]
    where
      by_fetch :
          cop.halted ≡ false
          → Fetched (cop.threads t)
          → Result t (pending (cop.threads t)) cop (step_thread ex cop t)
      by_fetch on (nothing gone empty) =
          subst (Result t (pending (cop.threads t)) cop) (sym (step_thread-idle cop on gone))
            (idle-Result cop _ v (pending-idle (cop.threads t)))
      by_fetch on (fetched insn th found words fresh ok _) =
          subst (Result t (pending (cop.threads t)) cop) (sym (step_thread-fetched cop on found)) (
            fetched-Result cop th insn words
              (step_fetched-Takes (set_thread cop t th) insn (set-Ready cop th fresh ok)))
