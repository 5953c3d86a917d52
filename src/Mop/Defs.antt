-- ===== src/Mop/Defs.antt =====
-- The expansion state and its functions. A function that writes through `st` returns the new state;
-- `none` stands for the `false` of a generator. The nine registers `mop_cfg` are a function.
use rv32_emu.Base.{
  ℕ, zero, suc, ◌+◌, ◌-◌, ◌*◌, ◌/◌, ◌^◌, Bool, true, false, not, ◌&&◌, Option, none, some, ◌==◌,
  leb, ltb, if◌then◌else◌, update, u32, field, bit, bit_xor, bit_or,
}

abbrev pub opcode_nop : ℕ
opcode_nop = 0x02

pub record MopState : Type 0 where
  pub active : Bool
  pub tmpl : ℕ
  pub tmpl0_mask : ℕ
  pub tmpl0_i : ℕ
  pub tmpl0_count : ℕ
  pub tmpl0_sub : ℕ
  pub tmpl0_num_sub : ℕ
  pub tmpl0_sub_insns : ℕ → ℕ
  pub tmpl1_j : ℕ
  pub tmpl1_i : ℕ
  pub tmpl1_outer : ℕ
  pub tmpl1_inner : ℕ
  pub tmpl1_phase : ℕ
  pub tmpl1_loop_op : ℕ
  pub tmpl1_loop_op_flip : ℕ

abbrev pub cleared : MopState
cleared = record {
  active = false;
  tmpl = 0;
  tmpl0_mask = 0;
  tmpl0_i = 0;
  tmpl0_count = 0;
  tmpl0_sub = 0;
  tmpl0_num_sub = 0;
  tmpl0_sub_insns = λ i. 0;
  tmpl1_j = 0;
  tmpl1_i = 0;
  tmpl1_outer = 0;
  tmpl1_inner = 0;
  tmpl1_phase = 0;
  tmpl1_loop_op = 0;
  tmpl1_loop_op_flip = 0;
}

unfoldable pub mop_is_nop : ℕ → Bool
mop_is_nop insn = field insn 24 8 == opcode_nop

-- `sub_insns[num_sub++] = insn;`
abbrev pub append_sub : MopState → ℕ → MopState
append_sub st insn = record st {
  tmpl0_sub_insns = update st.tmpl0_sub_insns st.tmpl0_num_sub insn;
  tmpl0_num_sub = st.tmpl0_num_sub + 1;
}

abbrev pub append_a123 : (ℕ → ℕ) → MopState → MopState
append_a123 cfg st =
    if bit (cfg 1) 1 then append_sub (append_sub (append_sub st (cfg 4)) (cfg 5)) (cfg 6) else st

abbrev pub append_b : (ℕ → ℕ) → ℕ → MopState → MopState
append_b cfg insn st = if bit (cfg 1) 0 then append_sub st insn else st

-- The instructions of one iteration, appended to an empty buffer.
unfoldable pub build_sub : (ℕ → ℕ) → MopState → MopState
build_sub cfg st =
    if field st.tmpl0_mask 0 1 == 0
    then append_b cfg (cfg 2) (append_a123 cfg (append_sub st (cfg 3)))
    else append_b cfg (cfg 8) (append_sub st (cfg 7))

-- `*out_insn = sub_insns[sub++]; return true;`
abbrev pub emit_sub : MopState → Option ℕ × MopState
emit_sub st = (some (st.tmpl0_sub_insns st.tmpl0_sub), record st { tmpl0_sub = st.tmpl0_sub + 1 })

abbrev pub start_iteration : MopState → MopState
start_iteration st = record st { tmpl0_num_sub = 0; tmpl0_sub = 0 }

abbrev pub end_iteration : MopState → MopState
end_iteration st = record st { tmpl0_mask = st.tmpl0_mask / 2; tmpl0_i = u32 (st.tmpl0_i + 1) }

unfoldable pub generate_next_t0 : (ℕ → ℕ) → MopState → Option ℕ × MopState
unfolding build_sub
generate_next_t0 cfg st =
    if ltb st.tmpl0_sub st.tmpl0_num_sub
    then emit_sub st
    else if leb st.tmpl0_count st.tmpl0_i
    then (none, record st { active = false })
    else emit_sub (end_iteration (build_sub cfg (start_iteration st)))

-- One turn of the `for (;;)`: it returns false, it returns true with an instruction, or it breaks
-- from the switch and goes around again.
pub data Turn : Type 0 where
  done : MopState → Turn
  emit : ℕ → MopState → Turn
  again : MopState → Turn

-- An instruction that a phase emits unless it is a NOP.
abbrev pub emit_unless_nop : ℕ → MopState → Turn
emit_unless_nop insn st = if mop_is_nop insn then again st else emit insn st

abbrev pub inner_insn : (ℕ → ℕ) → MopState → ℕ
inner_insn cfg st =
    if not (st.tmpl1_i == st.tmpl1_inner - 1)
    then st.tmpl1_loop_op
    else if not (st.tmpl1_j == st.tmpl1_outer - 1)
    then cfg 8
    else cfg 7

-- The counts minus 1 are taken inside the loops only, where they are not zero.
unfoldable pub turn : (ℕ → ℕ) → MopState → Turn
unfolding mop_is_nop
turn cfg st =
    if leb st.tmpl1_outer st.tmpl1_j
    then done (record st { active = false })
    else if st.tmpl1_phase == 0
    then emit_unless_nop (cfg 2) (record st { tmpl1_phase = 1; tmpl1_i = 0 })
    else if st.tmpl1_phase == 1
    then if ltb st.tmpl1_i st.tmpl1_inner
      then emit (inner_insn cfg st) (record st {
        tmpl1_loop_op = bit_xor st.tmpl1_loop_op st.tmpl1_loop_op_flip;
        tmpl1_i = u32 (st.tmpl1_i + 1);
      })
      else again (record st { tmpl1_phase = 2 })
    else if st.tmpl1_phase == 2
    then emit_unless_nop (cfg 3) (record st { tmpl1_phase = 3 })
    else if st.tmpl1_phase == 3
    then emit_unless_nop (cfg 4) (record st { tmpl1_j = u32 (st.tmpl1_j + 1); tmpl1_phase = 0 })
    else again st

-- The `for (;;)` on fuel; the outer `none` is out of fuel.
unfoldable pub turns : ℕ → (ℕ → ℕ) → MopState → Option (Option ℕ × MopState)
turns zero cfg st = none
turns (suc fuel) cfg st = elim (turn cfg st) [
  | done st' ↦ some (none, st')
  | emit insn st' ↦ some (some insn, st')
  | again st' ↦ turns fuel cfg st'
]

-- Four phases for each outer iteration left, and the turn that finds none left.
abbrev pub enough_turns : MopState → ℕ
enough_turns st = 4 * (st.tmpl1_outer - st.tmpl1_j) + 1

unfoldable pub generate_next_t1 : (ℕ → ℕ) → MopState → Option (Option ℕ × MopState)
generate_next_t1 cfg st = turns (enough_turns st) cfg st

unfoldable pub generate_next : (ℕ → ℕ) → MopState → Option (Option ℕ × MopState)
unfolding generate_next_t0 generate_next_t1
generate_next cfg st =
    if not st.active
    then some (none, st)
    else if st.tmpl == 0
    then some (generate_next_t0 cfg st)
    else generate_next_t1 cfg st

abbrev pub loop_op_flip : (ℕ → ℕ) → ℕ
loop_op_flip cfg = if mop_is_nop (cfg 6) then 0 else bit_xor (cfg 5) (cfg 6)

abbrev pub inner_count : (ℕ → ℕ) → ℕ
inner_count cfg = if mop_is_nop (cfg 6) then field (cfg 1) 0 7 else field (cfg 1) 0 7 * 2

abbrev pub outer_count : (ℕ → ℕ) → ℕ
outer_count cfg =
    let outer = field (cfg 0) 0 7 in
    if outer == 1 && mop_is_nop (cfg 2) && inner_count cfg == 0 && not (mop_is_nop (cfg 3))
    then outer + 128
    else outer

abbrev pub expand_t0 : ℕ → ℕ → ℕ → MopState
expand_t0 zmask_hi16 param tmpl = record cleared {
  active = true;
  tmpl = tmpl;
  tmpl0_mask = bit_or (u32 (zmask_hi16 * 2 ^ 16)) (field param 0 16);
  tmpl0_count = field param 16 7 + 1;
}

abbrev pub expand_t1 : (ℕ → ℕ) → ℕ → MopState
expand_t1 cfg tmpl = record cleared {
  active = true;
  tmpl = tmpl;
  tmpl1_outer = outer_count cfg;
  tmpl1_inner = inner_count cfg;
  tmpl1_loop_op = cfg 5;
  tmpl1_loop_op_flip = loop_op_flip cfg;
}

-- The expansion state that a MOP leaves; that it also drops the thread's pending instruction is
-- said where the thread is.
unfoldable pub expand : (ℕ → ℕ) → ℕ → ℕ → MopState
unfolding mop_is_nop
expand cfg zmask_hi16 param =
    let tmpl = field param 23 1 in
    if tmpl == 0 then expand_t0 zmask_hi16 param tmpl else expand_t1 cfg tmpl
