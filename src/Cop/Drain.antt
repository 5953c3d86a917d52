-- ===== src/Cop/Drain.antt =====
-- The loops that run a thread until it is blocked: they take a prefix of what waits, and they end.
use rv32_emu.Base.{
  ℕ, zero, suc, ◌+◌, ◌≤◌, ◌<◌, ◌≡◌, refl, sym, ap, ◌∙◌, subst, Bool, true, false, some, List, [],
  ◌∷◌, ◌++◌, arith, Bool-cases, inl, inr, length, ℤ,
}
use rv32_emu.Fifo.{fifo_size}
use rv32_emu.Fifo.Refine
use rv32_emu.Cop.State.{Cop, thread_index}
use rv32_emu.Cop.Executor.{Executor}
use rv32_emu.Cop.Step.{step, step_thread, run_until_wait, drain}
use rv32_emu.Cop.Pending.{pending, pending-length, Consumes}
use rv32_emu.Cop.Order.{Result, step_thread-Result}
use rv32_emu.Cop.Trace.{Took, Trace, done, next, step_thread-Took, step_thread-on}

module _ {D : Type 0} (ex : Executor D) (core_id : ℤ) (t : ℕ)
    (is_thread : thread_index core_id ≡ some t) where
  step-thread : (cop : Cop D) → step ex cop core_id ≡ step_thread ex cop t
  unfolding step
  step-thread cop = rw (step, is_thread) refl

  pub step-Result :
      (cop : Cop D)
      → Refine.IsValid (cop.threads t).insn_fifo
      → Result t (pending (cop.threads t)) cop (step ex cop core_id)
  step-Result cop v =
      subst (Result t (pending (cop.threads t)) cop) (sym (step-thread cop))
        (step_thread-Result ex t cop v)

  -- What a step that ran took, and that one that did not left everything.
  pub ran-words :
      (cop : Cop D)
      → Refine.IsValid (cop.threads t).insn_fifo
      → (step ex cop core_id).1 ≡ true
      → (insn : ℕ) × (pending (cop.threads t) ≡ insn ∷ pending ((step ex cop core_id).0.threads t))
  unfolding Consumes
  ran-words cop v e =
      subst (Consumes (pending (cop.threads t)) (pending ((step ex cop core_id).0.threads t))) e
        (step-Result cop v).words

  -- The word that a step took is the one it acted on.
  pub ran-Took :
      (cop : Cop D)
      → Refine.IsValid (cop.threads t).insn_fifo
      → (ran : (step ex cop core_id).1 ≡ true)
      → (insn : ℕ) × (pending (cop.threads t) ≡ insn ∷ pending ((step ex cop core_id).0.threads t))
        × Took ex t cop insn (step ex cop core_id).0
  ran-Took cop v ran =
      let here : step ex cop core_id ≡ step_thread ex cop t = step-thread cop in
      let (x, words) = ran-words cop v ran in
      let (y, took) =
        step_thread-Took ex t cop v (ap (λ (r : Cop D × Bool). r.1) (sym here) ∙ ran) in
      let same : y ≡ x = cc (words, took.words) in
      (
        x,
        words,
        subst (λ (r : Cop D × Bool). Took ex t cop x r.0) (sym here)
            (subst (λ (z : ℕ). Took ex t cop z (step_thread ex cop t).0) same took),
      )

  pub ran-on : (cop : Cop D) → (step ex cop core_id).1 ≡ true → cop.halted ≡ false
  ran-on cop ran =
      step_thread-on ex t cop (ap (λ (r : Cop D × Bool). r.1) (sym (step-thread cop)) ∙ ran)

  pub stuck-words :
      (cop : Cop D)
      → Refine.IsValid (cop.threads t).insn_fifo
      → (step ex cop core_id).1 ≡ false
      → pending ((step ex cop core_id).0.threads t) ≡ pending (cop.threads t)
  unfolding Consumes
  stuck-words cop v e =
      subst (Consumes (pending (cop.threads t)) (pending ((step ex cop core_id).0.threads t))) e
        (step-Result cop v).words

  run-again :
      (n : ℕ) (cop : Cop D)
      → (step ex cop core_id).1 ≡ true
      → run_until_wait ex (suc n) cop core_id ≡ (
        (run_until_wait ex n (step ex cop core_id).0 core_id).0,
        suc (run_until_wait ex n (step ex cop core_id).0 core_id).1,
      )
  unfolding run_until_wait
  run-again n cop e = rw (run_until_wait, e) refl

  run-stop :
      (n : ℕ) (cop : Cop D)
      → (step ex cop core_id).1 ≡ false
      → run_until_wait ex (suc n) cop core_id ≡ ((step ex cop core_id).0, 0)
  unfolding run_until_wait step
  run-stop n cop e = rw (run_until_wait, e) refl

  abbrev IsOn : Cop D → Type 0
  IsOn cop = cop.halted ≡ false

  -- Why a run from which the steps that ran led to `last` went no further.
  pub data Ended (n : ℕ) (last : Cop D) (r : Cop D × ℕ) : Type 0 where
    spent : r.1 ≡ n → r.0 ≡ last → Ended n last r
    stopped : (step ex last core_id).1 ≡ false → r.0 ≡ (step ex last core_id).0 → Ended n last r

  -- What a run leaves: the words `taken` were executed, in order, and the rest still waits.
  pub record Prefix (n : ℕ) (cop : Cop D) (r : Cop D × ℕ) : Type 0 where
    pub taken : List ℕ
    pub last : Cop D
    pub trace : Trace ex t IsOn cop taken last
    pub ended : Ended n last r
    pub words : pending (cop.threads t) ≡ taken ++ pending (r.0.threads t)
    pub number : length taken ≡ r.1
    pub at_most : r.1 ≤ n
    pub fifo_ok : Refine.IsValid (r.0.threads t).insn_fifo

  Ended-suc :
      (n : ℕ) (last : Cop D) (r : Cop D × ℕ) → Ended n last r → Ended (suc n) last (r.0, suc r.1)
  Ended-suc n last r (spent all same) = spent (ap suc all) same
  Ended-suc n last r (stopped e same) = stopped e same

  -- For a core id that names a thread with a valid FIFO, a run until wait of at most n
  -- instructions executes a prefix of the instructions that wait, in order and each while the
  -- coprocessor is not halted: each of them in turn is the first that waits, the gate is as it
  -- was or was open and is cleared, and the executor completes that very word (or, for MOP_CFG
  -- and the wait instructions, the mask of the MOP or the gate takes it). What waited before is
  -- that prefix followed by what waits after, the prefix is as long as the number returned, and
  -- the FIFO stays valid. The run ends after n of them, or with a step that does not run from
  -- where they led.
  pub run-Prefix :
      (n : ℕ) (cop : Cop D)
      → Refine.IsValid (cop.threads t).insn_fifo
      → Prefix n cop (run_until_wait ex n cop core_id)
  unfolding run_until_wait
  run-Prefix zero cop v = record {
    taken = [];
    last = cop;
    trace = done cop;
    ended = spent refl refl;
    words = refl;
    number = refl;
    at_most = omega arith;
    fifo_ok = v;
  }
  run-Prefix (suc n) cop v = elim (Bool-cases (step ex cop core_id).1) [
    | inl ran ↦
        let cop' : Cop D = (step ex cop core_id).0 in
        let rest : Prefix n cop' (run_until_wait ex n cop' core_id) =
          run-Prefix n cop' (step-Result cop v).fifo_ok in
        let (x, words, took) = ran-Took cop v ran in
        subst (Prefix (suc n) cop) (sym (run-again n cop ran)) (record {
          taken = x ∷ rest.taken;
          last = rest.last;
          trace = next (ran-on cop ran) took rest.trace;
          ended = Ended-suc n rest.last _ rest.ended;
          words = words ∙ ap (λ q. x ∷ q) rest.words;
          number = ap suc rest.number;
          at_most = omega (arith, rest.at_most);
          fifo_ok = rest.fifo_ok;
        })
    | inr no_run ↦ subst (Prefix (suc n) cop) (sym (run-stop n cop no_run)) (record {
      taken = [];
      last = cop;
      trace = done cop;
      ended = stopped no_run refl;
      words = sym (stuck-words cop v no_run);
      number = refl;
      at_most = omega arith;
      fifo_ok = (step-Result cop v).fifo_ok;
    })
  ]

  pub drain-ends :
      (fuel : ℕ) (cop : Cop D)
      → Refine.IsValid (cop.threads t).insn_fifo
      → length (pending (cop.threads t)) < fuel
      → (cop' : Cop D) × (drain ex fuel cop core_id ≡ some cop')
  unfolding drain
  drain-ends zero cop v h = absurd (omega arith)
  drain-ends (suc fuel) cop v h = elim (Bool-cases (step ex cop core_id).1) [
    | inr stuck ↦ ((step ex cop core_id).0, rw (drain, stuck) refl)
    | inl ran ↦
        let cop' : Cop D = (step ex cop core_id).0 in
        let (last, e) =
          drain-ends fuel cop' (step-Result cop v).fifo_ok
            (omega (arith, ap length (ran-words cop v ran).1)) in
        (last, rw (drain, ran) e)
  ]

  -- For a core id that names a thread with a valid FIFO, the loop that steps the thread until a
  -- step does not run ends within 34 turns.
  pub drain-total :
      (cop : Cop D)
      → Refine.IsValid (cop.threads t).insn_fifo
      → (cop' : Cop D) × (drain ex (fifo_size + 2) cop core_id ≡ some cop')
  drain-total cop v =
      drain-ends (fifo_size + 2) cop v (omega (arith, pending-length (cop.threads t) v))
