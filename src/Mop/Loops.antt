-- ===== src/Mop/Loops.antt =====
-- The nested loops that a template 1 MOP stands for, written without the flipping of the loop
-- instruction, and that the expansion of a MOP hands out just those.
use rv32_emu.Base.{
  ℕ, zero, suc, ◌*◌, ◌≤◌, ◌≡◌, refl, ap, ◌∙◌, true, false, List, [], ◌∷◌, ◌++◌, ◌==◌, if◌then◌else◌,
  bit_xor, arith, Bool-cases, inl, inr, field, length,
}
use rv32_emu.Base.Xor.{bit_xor-twice, bit_xor_comm, bit_xor-zero}
use mathlib.Core.Path.{ap₂}
use rv32_emu.Mop.Defs.{mop_is_nop, inner_count, outer_count, loop_op_flip, expand, expand_t1}
use rv32_emu.Mop.Template1.{
  unless_nop, last_insn, inner_rest, flips, outer_rest, remaining, remaining-fresh, IsValid,
}
use rv32_emu.Mop.Turns.{generate_next-Yields1}
use rv32_emu.Mop.Collect.{collect, collect-view}

-- `c` times `op`, the last of them replaced by `last`.
unfoldable pub singles : ℕ → ℕ → ℕ → List ℕ
singles zero op last = []
singles (suc c) op last = (if c == 0 then last else op) ∷ singles c op last

-- `c` times `op` and `op1`, the last `op1` replaced by `last`.
unfoldable pub pairs : ℕ → ℕ → ℕ → ℕ → List ℕ
pairs zero op op1 last = []
pairs (suc c) op op1 last = op ∷ (if c == 0 then last else op1) ∷ pairs c op op1 last

unfoldable pub loop_body : (ℕ → ℕ) → ℕ → List ℕ
unfolding singles pairs
loop_body cfg last =
    if mop_is_nop (cfg 6)
    then singles (field (cfg 1) 0 7) (cfg 5) last
    else pairs (field (cfg 1) 0 7) (cfg 5) (cfg 6) last

-- The last `n` outer iterations.
unfoldable pub outer_loop : (ℕ → ℕ) → ℕ → List ℕ
outer_loop cfg zero = []
outer_loop cfg (suc n) =
    unless_nop (cfg 2)
    ++ (loop_body cfg (last_insn cfg n)
        ++ (unless_nop (cfg 3) ++ (unless_nop (cfg 4) ++ outer_loop cfg n)))

inner_rest-singles :
    (k last op : ℕ) → (inner_rest k last op 0 ≡ singles k op last) × (flips k op 0 ≡ op)
unfolding inner_rest singles flips
inner_rest-singles zero last op = (refl, refl)
inner_rest-singles (suc k) last op = rw (bit_xor-zero op) (
  ap (λ r. (if k == 0 then last else op) ∷ r) (inner_rest-singles k last op).0,
  (inner_rest-singles k last op).1,
)

inner_rest-pairs :
    (c last op op1 : ℕ)
    → (inner_rest (c * 2) last op (bit_xor op op1) ≡ pairs c op op1 last)
      × (flips (c * 2) op (bit_xor op op1) ≡ op)
unfolding inner_rest pairs flips
inner_rest-pairs zero last op op1 = (refl, refl)
inner_rest-pairs (suc c) last op op1 =
    let two : suc c * 2 ≡ suc (suc (c * 2)) = omega arith in
    let there : bit_xor op (bit_xor op op1) ≡ op1 = bit_xor-twice op op1 in
    let back : bit_xor op1 (bit_xor op op1) ≡ op =
      ap (bit_xor op1) (bit_xor_comm op op1) ∙ bit_xor-twice op1 op in
    let even : (suc (c * 2) == 0) ≡ false = ground arith in
    let same : (c * 2 == 0) ≡ (c == 0) = ground arith in
    let (words, op_again) = inner_rest-pairs c last op op1 in
    rw (two, inner_rest, flips, there, back, even, same, words, op_again) (refl, refl)

-- The inner loop as the generator runs it is the loop body, and leaves the loop instruction as it
-- was.
inner_rest-loop_body :
    (cfg : ℕ → ℕ) (last : ℕ)
    → (inner_rest (inner_count cfg) last (cfg 5) (loop_op_flip cfg) ≡ loop_body cfg last)
      × (flips (inner_count cfg) (cfg 5) (loop_op_flip cfg) ≡ cfg 5)
unfolding loop_body
inner_rest-loop_body cfg last = elim (Bool-cases (mop_is_nop (cfg 6))) [
  | inl nop ↦ rw nop (inner_rest-singles (field (cfg 1) 0 7) last (cfg 5))
  | inr op ↦ rw op (inner_rest-pairs (field (cfg 1) 0 7) last (cfg 5) (cfg 6))
]

outer_rest-outer_loop :
    (cfg : ℕ → ℕ) (n : ℕ)
    → outer_rest cfg (inner_count cfg) n (cfg 5) (loop_op_flip cfg) ≡ outer_loop cfg n
unfolding outer_rest outer_loop
outer_rest-outer_loop cfg zero = refl
outer_rest-outer_loop cfg (suc n) =
    let (words, op_again) = inner_rest-loop_body cfg (last_insn cfg n) in
    let rest =
      ap (λ (op : ℕ). outer_rest cfg (inner_count cfg) n op (loop_op_flip cfg)) op_again
      ∙ outer_rest-outer_loop cfg n in
    ap₂ (λ xs ys. unless_nop (cfg 2) ++ (xs ++ (unless_nop (cfg 3) ++ (unless_nop (cfg 4) ++ ys))))
      words rest

module _ (cfg : ℕ → ℕ) (zmask_hi16 param : ℕ) (template1 : field param 23 1 ≡ 1) where
  expand-t1 : expand cfg zmask_hi16 param ≡ expand_t1 cfg 1
  unfolding expand
  expand-t1 = rw template1 refl

  expand-IsValid : IsValid (expand cfg zmask_hi16 param)
  expand-IsValid = rw expand-t1 (record {
    outer_lt = ground arith;
    inner_lt = ground arith;
    is_active = refl;
    tmpl_eq = ground arith;
    phase_lt = omega arith;
  })

  remaining-expand : remaining cfg (expand cfg zmask_hi16 param) ≡ outer_loop cfg (outer_count cfg)
  remaining-expand =
      ap (remaining cfg) expand-t1
      ∙ remaining-fresh cfg (expand_t1 cfg 1) refl
      ∙ ap (λ (n : ℕ). outer_rest cfg (inner_count cfg) n (cfg 5) (loop_op_flip cfg)) (omega arith)
      ∙ outer_rest-outer_loop cfg (outer_count cfg)

  -- For a MOP of template 1 and any registers, calling the lazy generator from the expansion
  -- state, one time more than there are instructions or oftener, hands out exactly the nested
  -- loops that the registers describe, written without the flipping of the loop instruction
  -- (start, inner loop with its last instruction replaced, two ends, NOPs left out), and then
  -- says that there is no more.
  pub collect-expand :
      (n : ℕ)
      → suc (length (outer_loop cfg (outer_count cfg))) ≤ n
      → collect n cfg (expand cfg zmask_hi16 param) ≡ (outer_loop cfg (outer_count cfg), true)
  collect-expand n h =
      collect-view cfg (generate_next-Yields1 cfg) n (expand cfg zmask_hi16 param) expand-IsValid
        (omega (arith, ap length remaining-expand))
      ∙ ap (λ l. (l, true)) remaining-expand
