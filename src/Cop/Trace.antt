-- ===== src/Cop/Trace.antt =====
-- What the instruction that a step takes is used for: the word that is fetched is the one that the
-- executor, the gate or the MOP expander gets.
use rv32_emu.Base.{
  ℕ, ◌≡◌, ◌≢◌, refl, sym, ap, ◌∙◌, subst, Bool, true, false, List, [], ◌∷◌, ◌==◌, Bool-cases, inl,
  inr, field, arith,
}
use rv32_emu.Core.{Banks, Syncs}
use rv32_emu.Fifo.Refine
use rv32_emu.Gate
use rv32_emu.Gate.{Gate, is_wait}
use rv32_emu.Gate.Units.{waits, is_wait-waits}
use rv32_emu.Cop.State.{Cop, Thread, set_thread}
use rv32_emu.Cop.Executor.{Executor}
use rv32_emu.Cop.Step.{
  retire, step_execute, step_ungated, step_fetched, step_thread, auto_waits, gate_asks,
}
use rv32_emu.Cop.Pending.{
  pending, Fetched, nothing, fetched, fetch-Fetched, set_thread_self, pending-gate,
}
use rv32_emu.Cop.Order.{
  step_thread-fetched, step_thread-halted, step_thread-idle, set_thread-others,
}

-- The gate is as it was, or it was open and is cleared.
pub data Opened (banks : Banks) (syncs : Syncs) (old new : Gate) : Type 0 where
  same : new ≡ old → Opened banks syncs old new
  opened : Gate.check old banks syncs ≡ true → new ≡ Gate.clear old → Opened banks syncs old new

module _ {D : Type 0} (ex : Executor D) (t : ℕ) where
  -- From `cop`, thread `t` is done with `insn`, and this leaves `cop'`: the upper half of the
  -- mask of a MOP for MOP_CFG, the latched gate for the wait instructions, and for any other
  -- what the executor completes it with.
  pub data Does (cop : Cop D) (insn : ℕ) (cop' : Cop D) : Type 0 where
    configures :
        Gate.insn_opcode insn ≡ 0x03
        → cop' ≡ set_thread cop t (retire (record (cop.threads t) { zmask_hi16 = field insn 0 24 }))
        → Does cop insn cop'
    latches :
        waits (Gate.insn_opcode insn) ≡ true
        → cop'
          ≡ set_thread cop t (
              retire
                (record (cop.threads t) { wait_gate = Gate.latch (cop.threads t).wait_gate insn }))
        → Does cop insn cop'
    executes :
        Gate.insn_opcode insn ≢ 0x03
        → waits (Gate.insn_opcode insn) ≡ false
        → (ex.execute cop t insn).1 ≡ true
        → cop'
          ≡ set_thread (ex.execute cop t insn).0 t (retire ((ex.execute cop t insn).0.threads t))
        → Does cop insn cop'

  -- `insn` is the first of the words that wait in `cop`; once it is taken from them, and the gate
  -- let it pass, `Does` says what it does to the rest.
  pub record Took (cop : Cop D) (insn : ℕ) (cop' : Cop D) : Type 0 where
    pub at : Cop D
    pub words : pending (cop.threads t) ≡ insn ∷ pending (at.threads t)
    pub core : at.core ≡ cop.core
    pub others : (u : ℕ) → u ≢ t → at.threads u ≡ cop.threads u
    pub gate :
        Opened cop.core.banks cop.core.syncs (cop.threads t).wait_gate (at.threads t).wait_gate
    pub does : Does at insn cop'

  -- One word after another is taken, each of them at a coprocessor with `P`.
  pub data Trace (P : Cop D → Type 0) : Cop D → List ℕ → Cop D → Type 0 where
    done : (cop : Cop D) → Trace P cop [] cop
    next :
        {cop cop' last : Cop D} {insn : ℕ} {insns : List ℕ}
        → P cop
        → Took cop insn cop'
        → Trace P cop' insns last
        → Trace P cop (insn ∷ insns) last

  -- What a step function that is given an instruction does with it if it says that it ran.
  abbrev Acts : Cop D → ℕ → Cop D × Bool → Type 0
  Acts cop insn r = r.1 ≡ true → Does cop insn r.0

  step_execute-Acts :
      (cop : Cop D) (insn : ℕ)
      → Gate.insn_opcode insn ≢ 0x03
      → waits (Gate.insn_opcode insn) ≡ false
      → Acts cop insn (step_execute ex cop t insn)
  unfolding step_execute
  step_execute-Acts cop insn no_cfg no_wait = elim (Bool-cases (ex.execute cop t insn).1) [
    | inl ok ↦ rw ok (λ _. executes no_cfg no_wait ok refl)
    | inr stuck ↦ rw stuck (λ ran. absurd (cc ran))
  ]

  -- The same from a step past the gate, and from one before it, whose gate may open.
  step_ungated-Acts :
      (cop : Cop D) (insn : ℕ)
      → Gate.insn_opcode insn ≢ 0x03
      → Acts cop insn (step_ungated ex cop t insn)
  unfolding step_ungated
  step_ungated-Acts cop insn no_cfg =
      let known = is_wait-waits (Gate.insn_opcode insn) in
      elim (Bool-cases (is_wait (Gate.insn_opcode insn))) [
        | inl wait ↦ rw wait (λ _. latches (sym known ∙ wait) refl)
        | inr other ↦ elim (Bool-cases (auto_waits cop.core.banks (Gate.insn_opcode insn) insn)) [
          | inl held ↦ rw (other, held) (λ ran. absurd (cc ran))
          | inr free ↦ rw (other, free) (step_execute-Acts cop insn no_cfg (sym known ∙ other))
        ]
      ]

  -- Where thread `t` stands when its instruction acts, after the fetch and the gate.
  record Before (cop at : Cop D) : Type 0 where
    words : pending (at.threads t) ≡ pending (cop.threads t)
    core : at.core ≡ cop.core
    others : (u : ℕ) → u ≢ t → at.threads u ≡ cop.threads u
    gate : Opened cop.core.banks cop.core.syncs (cop.threads t).wait_gate (at.threads t).wait_gate

  step_fetched-Acts :
      (cop : Cop D) (insn : ℕ)
      → (step_fetched ex cop t insn).1 ≡ true
      → (at : Cop D) × Before cop at × Does at insn (step_fetched ex cop t insn).0
  unfolding step_fetched
  step_fetched-Acts cop insn = elim (Bool-cases (Gate.insn_opcode insn == 0x03)) [
    | inl cfg ↦ rw cfg (λ _. (cop, unchanged, configures (ground arith) refl))
    | inr plain ↦
        let no_cfg : Gate.insn_opcode insn ≢ 0x03 = ground arith in
        elim (Bool-cases (gate_asks (cop.threads t).wait_gate (Gate.insn_opcode insn))) [
          | inr passes ↦
              rw (plain, passes) (λ ran. (cop, unchanged, step_ungated-Acts cop insn no_cfg ran))
          | inl asks ↦ elim (Bool-cases check) [
            | inr shut ↦ rw (plain, asks, shut) (λ ran. absurd (cc ran))
            | inl opens ↦
                rw (plain, asks, opens)
                  (λ ran. (cleared, past opens, step_ungated-Acts cleared insn no_cfg ran))
          ]
        ]
  ]
    where
      check : Bool
      check = Gate.check (cop.threads t).wait_gate cop.core.banks cop.core.syncs

      unchanged : Before cop cop
      unchanged = record { words = refl; core = refl; others = λ u ne. refl; gate = same refl }

      open_th : Thread
      open_th = record (cop.threads t) { wait_gate = Gate.clear (cop.threads t).wait_gate }

      cleared : Cop D
      cleared = set_thread cop t open_th

      past : check ≡ true → Before cop cleared
      past opens = record {
        words = ap pending (set_thread_self cop t open_th) ∙ pending-gate (cop.threads t) _;
        core = refl;
        others = set_thread-others ex t cop open_th;
        gate = opened opens (ap (λ (x : Thread). x.wait_gate) (set_thread_self cop t open_th));
      }

  -- A step that ran took the first of the words that wait, and did with it what that word says.
  pub step_thread-Took :
      (cop : Cop D)
      → Refine.IsValid (cop.threads t).insn_fifo
      → (step_thread ex cop t).1 ≡ true
      → (insn : ℕ) × Took cop insn (step_thread ex cop t).0
  step_thread-Took cop v ran = elim (Bool-cases cop.halted) [
    | inl stopped ↦ absurd (cc (ran, step_thread-halted ex t cop stopped))
    | inr on ↦ by_fetch on (fetch-Fetched (cop.threads t) v)
  ]
    where
      by_fetch :
          cop.halted ≡ false
          → Fetched (cop.threads t)
          → (insn : ℕ) × Took cop insn (step_thread ex cop t).0
      by_fetch on (nothing gone empty) = absurd (cc (ran, step_thread-idle ex t cop on gone))
      by_fetch on (fetched insn th found words fresh ok g) =
          let there = step_thread-fetched ex t cop on found in
          let (at, before, does) =
            step_fetched-Acts (set_thread cop t th) insn
              (ap (λ (r : Cop D × Bool). r.1) (sym there) ∙ ran) in
          let self = set_thread_self cop t th in
          (
            insn,
            record {
              at = at;
              words = words ∙ ap (λ q. insn ∷ q) (sym (before.words ∙ ap pending self));
              core = before.core;
              others = λ u ne. before.others u ne ∙ set_thread-others ex t cop th u ne;
              gate =
                  subst
                    (λ (x : Gate). Opened cop.core.banks cop.core.syncs x (at.threads t).wait_gate)
                    (ap (λ (x : Thread). x.wait_gate) self ∙ g) before.gate;
              does = subst (λ (r : Cop D × Bool). Does at insn r.0) (sym there) does;
            },
          )

  pub step_thread-on : (cop : Cop D) → (step_thread ex cop t).1 ≡ true → cop.halted ≡ false
  step_thread-on cop ran = elim (Bool-cases cop.halted) [
    | inl stopped ↦ absurd (cc (ran, step_thread-halted ex t cop stopped))
    | inr on ↦ on
  ]
