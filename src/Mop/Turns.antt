-- ===== src/Mop/Turns.antt =====
-- Template 1: each call of the generator hands out exactly the next instruction of what is to come,
-- within the turns that it has.
use rv32_emu.Base.{
  ℕ, zero, suc, ◌+◌, ◌-◌, ◌*◌, ◌≤◌, ◌<◌, ◌≡◌, refl, sym, ap, ◌∙◌, true, false, not, Option, [], ◌∷◌,
  ◌++◌, ◌==◌, leb, ltb, if◌then◌else◌, bit_xor, arith, Bool-cases, inl, inr, u32,
}
use mathlib.Core.Path.{ap₂}
use native.Mathlib.Decide.{dec_lt, ℕ_discrete}
use rv32_emu.Mop.Defs.{
  MopState, mop_is_nop, done, emit, again, emit_unless_nop, turn, turns, enough_turns, inner_insn,
  generate_next_t1, generate_next,
}
use rv32_emu.Mop.Collect.{Yields, finished, yielded}
use rv32_emu.Mop.Template1.{
  unless_nop, inner_rest, flips, last_insn, outer_rest, phase_rest, remaining, IsValid,
  remaining-in, remaining-fresh,
}

-- The turns that a state may still take before it hands out an instruction or is done.
abbrev fuel_for : MopState → ℕ
fuel_for st = 4 * (st.tmpl1_outer - st.tmpl1_j) - st.tmpl1_phase + 1

-- What one turn does to the rest.
data Turns (cfg : ℕ → ℕ) (st : MopState) : Type 0 where
  at_end :
      (st' : MopState)
      → turn cfg st ≡ done st'
      → st'.active ≡ false
      → remaining cfg st ≡ []
      → Turns cfg st
  emits :
      (x : ℕ) (st' : MopState)
      → turn cfg st ≡ emit x st'
      → remaining cfg st ≡ x ∷ remaining cfg st'
      → IsValid st'
      → Turns cfg st
  goes_on :
      (st' : MopState)
      → turn cfg st ≡ again st'
      → remaining cfg st ≡ remaining cfg st'
      → IsValid st'
      → fuel_for st' < fuel_for st
      → Turns cfg st

over-Turns : (cfg : ℕ → ℕ) (st : MopState) → st.tmpl1_outer ≤ st.tmpl1_j → Turns cfg st
unfolding turn remaining
over-Turns cfg st h =
    let e : leb st.tmpl1_outer st.tmpl1_j ≡ true = ground arith in
    at_end (record st { active = false }) (rw e refl) refl (rw e refl)

-- A phase that hands out one instruction unless it is a NOP.
emit-Turns :
    (cfg : ℕ → ℕ) (st st' : MopState) (insn : ℕ)
    → turn cfg st ≡ emit_unless_nop insn st'
    → remaining cfg st ≡ unless_nop insn ++ remaining cfg st'
    → IsValid st'
    → fuel_for st' < fuel_for st
    → Turns cfg st
emit-Turns cfg st st' insn t r v f = elim (Bool-cases (mop_is_nop insn)) [
  | inl nop ↦ goes_on st' (t ∙ rw nop refl) (r ∙ rw nop refl) v f
  | inr op ↦ emits insn st' (t ∙ rw op refl) (r ∙ rw op refl) v
]

module _ (cfg : ℕ → ℕ) (st : MopState) (v : IsValid st) (more : st.tmpl1_j < st.tmpl1_outer) where
  abbrev k : ℕ
  k = st.tmpl1_inner - st.tmpl1_i

  abbrev n : ℕ
  n = st.tmpl1_outer - st.tmpl1_j - 1

  start-Turns : st.tmpl1_phase ≡ 0 → Turns cfg st
  unfolding turn phase_rest outer_rest
  start-Turns e =
      let below : leb st.tmpl1_outer st.tmpl1_j ≡ false = ground arith in
      let st' : MopState = record st { tmpl1_phase = 1; tmpl1_i = 0 } in
      emit-Turns cfg st st' (cfg 2) (rw (below, e) refl)
        (remaining-in cfg st more e
          ∙ ap
              (λ (m : ℕ).
                unless_nop (cfg 2)
                ++ phase_rest cfg st.tmpl1_inner 1 m n st.tmpl1_loop_op st.tmpl1_loop_op_flip)
              (omega arith)
          ∙ ap (λ r. unless_nop (cfg 2) ++ r) (sym (remaining-in cfg st' more refl)))
        (record {
          outer_lt = v.outer_lt;
          inner_lt = v.inner_lt;
          is_active = v.is_active;
          tmpl_eq = v.tmpl_eq;
          phase_lt = omega arith;
        })
        (omega arith)

  end0-Turns : st.tmpl1_phase ≡ 2 → Turns cfg st
  unfolding turn phase_rest
  end0-Turns e =
      let below : leb st.tmpl1_outer st.tmpl1_j ≡ false = ground arith in
      let st' : MopState = record st { tmpl1_phase = 3 } in
      emit-Turns cfg st st' (cfg 3) (rw (below, e) refl)
        (remaining-in cfg st more e
          ∙ ap (λ r. unless_nop (cfg 3) ++ r) (sym (remaining-in cfg st' more refl)))
        (record {
          outer_lt = v.outer_lt;
          inner_lt = v.inner_lt;
          is_active = v.is_active;
          tmpl_eq = v.tmpl_eq;
          phase_lt = omega arith;
        })
        (omega arith)

  end1-Turns : st.tmpl1_phase ≡ 3 → Turns cfg st
  unfolding turn phase_rest
  end1-Turns e =
      let below : leb st.tmpl1_outer st.tmpl1_j ≡ false = ground arith in
      let st' : MopState = record st { tmpl1_j = u32 (st.tmpl1_j + 1); tmpl1_phase = 0 } in
      let step : u32 (st.tmpl1_j + 1) ≡ st.tmpl1_j + 1 = omega (arith, v.outer_lt) in
      emit-Turns cfg st st' (cfg 4) (rw (below, e) refl)
        (remaining-in cfg st more e
          ∙ ap
              (λ (m : ℕ).
                unless_nop (cfg 4)
                ++ outer_rest cfg st.tmpl1_inner m st.tmpl1_loop_op st.tmpl1_loop_op_flip)
              (omega arith)
          ∙ ap (λ r. unless_nop (cfg 4) ++ r) (sym (remaining-fresh cfg st' refl)))
        (record {
          outer_lt = v.outer_lt;
          inner_lt = v.inner_lt;
          is_active = v.is_active;
          tmpl_eq = v.tmpl_eq;
          phase_lt = omega arith;
        })
        (omega arith)

  inner-Turns : st.tmpl1_phase ≡ 1 → Turns cfg st
  unfolding turn phase_rest inner_rest flips
  inner-Turns e =
      let below : leb st.tmpl1_outer st.tmpl1_j ≡ false = ground arith in
      elim (dec_lt st.tmpl1_i st.tmpl1_inner) [
        | yes inside ↦
            let st' : MopState = record st {
              tmpl1_loop_op = bit_xor st.tmpl1_loop_op st.tmpl1_loop_op_flip;
              tmpl1_i = u32 (st.tmpl1_i + 1);
            } in
            let ins : ltb st.tmpl1_i st.tmpl1_inner ≡ true = ground arith in
            let step : u32 (st.tmpl1_i + 1) ≡ st.tmpl1_i + 1 = omega (arith, v.inner_lt) in
            emits (inner_insn cfg st) st' (rw (below, e, ins) refl)
              (remaining-in cfg st more e
                ∙ ap
                    (λ (m : ℕ).
                      phase_rest cfg st.tmpl1_inner 1 m n st.tmpl1_loop_op st.tmpl1_loop_op_flip)
                    {y = suc (st.tmpl1_inner - u32 (st.tmpl1_i + 1))} (omega arith)
                ∙ ap₂ ◌∷◌ (inner_insn-last inside step) (sym (remaining-in cfg st' more e)))
              (record {
                outer_lt = v.outer_lt;
                inner_lt = v.inner_lt;
                is_active = v.is_active;
                tmpl_eq = v.tmpl_eq;
                phase_lt = v.phase_lt;
              })
        | no out ↦
            let st' : MopState = record st { tmpl1_phase = 2 } in
            let outside : ltb st.tmpl1_i st.tmpl1_inner ≡ false = ground arith in
            goes_on st' (rw (below, e, outside) refl)
              (remaining-in cfg st more e
                ∙ ap
                    (λ (m : ℕ).
                      phase_rest cfg st.tmpl1_inner 1 m n st.tmpl1_loop_op st.tmpl1_loop_op_flip)
                    {y = 0} (omega arith)
                ∙ sym (remaining-in cfg st' more refl))
              (record {
                outer_lt = v.outer_lt;
                inner_lt = v.inner_lt;
                is_active = v.is_active;
                tmpl_eq = v.tmpl_eq;
                phase_lt = omega arith;
              })
              (omega arith)
      ]
    where
      inner_insn-last :
          st.tmpl1_i < st.tmpl1_inner
          → u32 (st.tmpl1_i + 1) ≡ st.tmpl1_i + 1
          → (if st.tmpl1_inner - u32 (st.tmpl1_i + 1) == 0
              then last_insn cfg n
              else st.tmpl1_loop_op)
            ≡ inner_insn cfg st
      inner_insn-last inside step = ground arith

  phase-Turns : Turns cfg st
  phase-Turns = elim (ℕ_discrete st.tmpl1_phase 0) [
    | yes e ↦ start-Turns e
    | no not0 ↦ elim (ℕ_discrete st.tmpl1_phase 1) [
      | yes e ↦ inner-Turns e
      | no not1 ↦ elim (ℕ_discrete st.tmpl1_phase 2) [
        | yes e ↦ end0-Turns e
        | no not2 ↦ end1-Turns (omega (arith, v.phase_lt))
      ]
    ]
  ]

turn-Turns : (cfg : ℕ → ℕ) (st : MopState) → IsValid st → Turns cfg st
turn-Turns cfg st v = elim (dec_lt st.tmpl1_j st.tmpl1_outer) [
  | yes more ↦ phase-Turns cfg st v more
  | no over ↦ over-Turns cfg st (omega arith)
]

-- What the turns of one call give.
abbrev Yields1 : (ℕ → ℕ) → MopState → Option (Option ℕ × MopState) → Type 0
Yields1 cfg = Yields (remaining cfg) IsValid

Yields-again :
    (cfg : ℕ → ℕ) {st st' : MopState} {r r' : Option (Option ℕ × MopState)}
    → remaining cfg st ≡ remaining cfg st'
    → r ≡ r'
    → Yields1 cfg st' r'
    → Yields1 cfg st r
Yields-again cfg e same (finished last found over empty) =
    finished last (same ∙ found) over (e ∙ empty)
Yields-again cfg e same (yielded x next found words v) = yielded x next (same ∙ found) (e ∙ words) v

turns-Yields :
    (cfg : ℕ → ℕ) (fuel : ℕ) (st : MopState)
    → IsValid st
    → fuel_for st ≤ fuel
    → Yields1 cfg st (turns fuel cfg st)
unfolding turns
turns-Yields cfg zero st v enough = absurd (omega arith)
turns-Yields cfg (suc fuel) st v enough =
    by_turn (λ st' v' less. turns-Yields cfg fuel st' v' (omega arith)) (turn-Turns cfg st v)
  where
    by_turn :
        ((st' : MopState)
          → IsValid st'
          → fuel_for st' < fuel_for st
          → Yields1 cfg st' (turns fuel cfg st'))
        → Turns cfg st
        → Yields1 cfg st (turns (suc fuel) cfg st)
    by_turn rec (at_end st' t over e) = finished st' (rw (turns, t) refl) over e
    by_turn rec (emits x st' t e v') = yielded x st' (rw (turns, t) refl) e v'
    by_turn rec (goes_on st' t e v' less) =
        Yields-again cfg e (rw (turns, t) refl) (rec st' v' less)

generate_next_t1-Yields :
    (cfg : ℕ → ℕ) (st : MopState) → IsValid st → Yields1 cfg st (generate_next_t1 cfg st)
unfolding generate_next_t1
generate_next_t1-Yields cfg st v = turns-Yields cfg (enough_turns st) st v (omega arith)

generate_next-t1 :
    (cfg : ℕ → ℕ) (st : MopState)
    → not st.active ≡ false
    → (st.tmpl == 0) ≡ false
    → generate_next cfg st ≡ generate_next_t1 cfg st
unfolding generate_next
generate_next-t1 cfg st on other = rw (on, other) refl

pub generate_next-Yields1 :
    (cfg : ℕ → ℕ) (st : MopState) → IsValid st → Yields1 cfg st (generate_next cfg st)
generate_next-Yields1 cfg st v =
    Yields-again cfg {st' = st} refl
      (generate_next-t1 cfg st (ap not v.is_active) (ground (arith, v.tmpl_eq)))
      (generate_next_t1-Yields cfg st v)
