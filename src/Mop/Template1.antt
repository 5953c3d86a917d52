-- ===== src/Mop/Template1.antt =====
-- Template 1: what is still to come from a state of the generator.
use rv32_emu.Base.{
  ℕ, zero, suc, ◌-◌, ◌<◌, ◌^◌, ◌≡◌, ◌≢◌, refl, ap, ◌∙◌, true, false, List, [], ◌∷◌, ◌++◌, ◌==◌, leb,
  if◌then◌else◌, bit_xor, arith,
}
use native.Mathlib.Decide.{dec_lt}
use rv32_emu.Mop.Defs.{MopState, mop_is_nop}

abbrev pub unless_nop : ℕ → List ℕ
unless_nop insn = if mop_is_nop insn then [] else insn ∷ []

-- The last `k` instructions of an inner loop, the last of all being `last`.
unfoldable pub inner_rest : ℕ → ℕ → ℕ → ℕ → List ℕ
inner_rest zero last op flip = []
inner_rest (suc k) last op flip =
    (if k == 0 then last else op) ∷ inner_rest k last (bit_xor op flip) flip

-- The loop instruction after `k` turns of the inner loop.
unfoldable pub flips : ℕ → ℕ → ℕ → ℕ
flips zero op flip = op
flips (suc k) op flip = flips k (bit_xor op flip) flip

-- What ends the inner loop when `n` outer iterations follow.
abbrev pub last_insn : (ℕ → ℕ) → ℕ → ℕ
last_insn cfg n = if n == 0 then cfg 7 else cfg 8

unfoldable pub outer_rest : (ℕ → ℕ) → ℕ → ℕ → ℕ → ℕ → List ℕ
outer_rest cfg inner zero op flip = []
outer_rest cfg inner (suc n) op flip =
    unless_nop (cfg 2)
    ++ (inner_rest inner (last_insn cfg n) op flip
        ++ (unless_nop (cfg 3)
            ++ (unless_nop (cfg 4) ++ outer_rest cfg inner n (flips inner op flip) flip)))

-- The rest of an outer iteration from a phase on, with `k` turns of its inner loop and `n` outer
-- iterations to go.
unfoldable pub phase_rest : (ℕ → ℕ) → ℕ → ℕ → ℕ → ℕ → ℕ → ℕ → List ℕ
phase_rest cfg inner zero k n op flip = outer_rest cfg inner (suc n) op flip
phase_rest cfg inner (suc zero) k n op flip =
    inner_rest k (last_insn cfg n) op flip
    ++ (unless_nop (cfg 3) ++ (unless_nop (cfg 4) ++ outer_rest cfg inner n (flips k op flip) flip))
phase_rest cfg inner (suc (suc zero)) k n op flip =
    unless_nop (cfg 3) ++ (unless_nop (cfg 4) ++ outer_rest cfg inner n op flip)
phase_rest cfg inner (suc (suc (suc p))) k n op flip =
    unless_nop (cfg 4) ++ outer_rest cfg inner n op flip

unfoldable pub remaining : (ℕ → ℕ) → MopState → List ℕ
remaining cfg st =
    if leb st.tmpl1_outer st.tmpl1_j
    then []
    else phase_rest cfg st.tmpl1_inner st.tmpl1_phase (st.tmpl1_inner - st.tmpl1_i)
        (st.tmpl1_outer - st.tmpl1_j - 1) st.tmpl1_loop_op st.tmpl1_loop_op_flip

pub record IsValid (st : MopState) : Type 0 where
  pub outer_lt : st.tmpl1_outer < 2 ^ 32
  pub inner_lt : st.tmpl1_inner < 2 ^ 32
  pub is_active : st.active ≡ true
  pub tmpl_eq : st.tmpl ≢ 0
  pub phase_lt : st.tmpl1_phase < 4

pub remaining-in :
    (cfg : ℕ → ℕ) (st : MopState) {p : ℕ}
    → st.tmpl1_j < st.tmpl1_outer
    → st.tmpl1_phase ≡ p
    → remaining cfg st
      ≡ phase_rest cfg st.tmpl1_inner p
          (st.tmpl1_inner - st.tmpl1_i)
          (st.tmpl1_outer - st.tmpl1_j - 1)
          st.tmpl1_loop_op
          st.tmpl1_loop_op_flip
unfolding remaining
remaining-in cfg st more e =
    let below : leb st.tmpl1_outer st.tmpl1_j ≡ false = ground arith in rw (below, e) refl

-- At the start of an iteration, or past the last one, what is left is whole iterations.
pub remaining-fresh :
    (cfg : ℕ → ℕ) (st : MopState)
    → st.tmpl1_phase ≡ 0
    → remaining cfg st
      ≡ outer_rest cfg st.tmpl1_inner
          (st.tmpl1_outer - st.tmpl1_j)
          st.tmpl1_loop_op
          st.tmpl1_loop_op_flip
unfolding phase_rest
remaining-fresh cfg st e = elim (dec_lt st.tmpl1_j st.tmpl1_outer) [
  | yes more ↦
      remaining-in cfg st more e
      ∙ ap (λ (n : ℕ). outer_rest cfg st.tmpl1_inner n st.tmpl1_loop_op st.tmpl1_loop_op_flip)
          (omega arith)
  | no over ↦ past (ground arith) (omega arith)
]
  where
    past :
        leb st.tmpl1_outer st.tmpl1_j ≡ true
        → st.tmpl1_outer - st.tmpl1_j ≡ 0
        → remaining cfg st
          ≡ outer_rest cfg st.tmpl1_inner
              (st.tmpl1_outer - st.tmpl1_j)
              st.tmpl1_loop_op
              st.tmpl1_loop_op_flip
    past h z = unfold remaining outer_rest in rw (h, z) refl
