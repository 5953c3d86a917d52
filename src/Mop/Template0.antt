-- ===== src/Mop/Template0.antt =====
-- Template 0: an instruction group or its skip group for each bit of the mask, and that the
-- expansion of a MOP hands out just those.
use native.Mathlib.Decide.{dec_lt}
use rv32_emu.Base.{
  ℕ, zero, suc, ◌+◌, ◌-◌, ◌*◌, ◌/◌, ◌≤◌, ◌<◌, ◌^◌, ◌≡◌, refl, sym, ap, subst, ◌∙◌, true, false, not,
  some, List, [], ◌∷◌, ◌++◌, ◌==◌, leb, ltb, if◌then◌else◌, arith, Bool-cases, inl, inr, u32, field,
  bit, length, bit_or,
}
use rv32_emu.Mop.Defs.{
  MopState, generate_next, generate_next_t0, build_sub, start_iteration, end_iteration, expand,
  expand_t0,
}
use rv32_emu.Mop.Collect.{Yields, finished, yielded, collect, collect-view}

-- What one bit of the mask stands for.
unfoldable pub group : (ℕ → ℕ) → ℕ → List ℕ
group cfg mask_bit =
    let has_b = bit (cfg 1) 0 in
    let has_a123 = bit (cfg 1) 1 in
    if mask_bit == 0
    then cfg 3
      ∷ ((if has_a123 then cfg 4 ∷ cfg 5 ∷ cfg 6 ∷ [] else [])
          ++ (if has_b then cfg 2 ∷ [] else []))
    else cfg 7 ∷ (if has_b then cfg 8 ∷ [] else [])

-- The groups of the lowest `n` bits of a mask, lowest first.
unfoldable pub groups : (ℕ → ℕ) → ℕ → ℕ → List ℕ
groups cfg zero mask = []
groups cfg (suc n) mask = group cfg (field mask 0 1) ++ groups cfg n (mask / 2)

-- `n` entries of the buffer from `from` on.
unfoldable pub slice : (ℕ → ℕ) → ℕ → ℕ → List ℕ
slice buf zero from = []
slice buf (suc n) from = buf from ∷ slice buf n (from + 1)

unfoldable pub remaining : (ℕ → ℕ) → MopState → List ℕ
remaining cfg st =
    slice st.tmpl0_sub_insns (st.tmpl0_num_sub - st.tmpl0_sub) st.tmpl0_sub
    ++ groups cfg (st.tmpl0_count - st.tmpl0_i) st.tmpl0_mask

pub record IsValid (st : MopState) : Type 0 where
  pub is_active : st.active ≡ true
  pub tmpl_eq : st.tmpl ≡ 0
  pub count_lt : st.tmpl0_count < 2 ^ 32

-- What is built for an iteration is its group, in a buffer of at least one instruction.
slice-build_sub :
    (cfg : ℕ → ℕ) (st : MopState)
    → slice
        (build_sub cfg (start_iteration st)).tmpl0_sub_insns
        (build_sub cfg (start_iteration st)).tmpl0_num_sub
        0
      ≡ group cfg (field st.tmpl0_mask 0 1)
unfolding build_sub group slice
slice-build_sub cfg st = elim (Bool-cases (field st.tmpl0_mask 0 1 == 0)) [
  | inl runs ↦ elim (Bool-cases (bit (cfg 1) 1)) [
    | inl a123 ↦ elim (Bool-cases (bit (cfg 1) 0)) [
      | inl b ↦ rw (runs, a123, b) refl
      | inr no_b ↦ rw (runs, a123, no_b) refl
    ]
    | inr no_a ↦ elim (Bool-cases (bit (cfg 1) 0)) [
      | inl b ↦ rw (runs, no_a, b) refl
      | inr no_b ↦ rw (runs, no_a, no_b) refl
    ]
  ]
  | inr skips ↦ elim (Bool-cases (bit (cfg 1) 0)) [
    | inl b ↦ rw (skips, b) refl
    | inr no_b ↦ rw (skips, no_b) refl
  ]
]

-- What building an iteration leaves alone, and that the buffer is not empty then.
record Built (st b : MopState) : Type 0 where
  active_eq : b.active ≡ st.active
  tmpl_eq : b.tmpl ≡ st.tmpl
  mask_eq : b.tmpl0_mask ≡ st.tmpl0_mask
  i_eq : b.tmpl0_i ≡ st.tmpl0_i
  count_eq : b.tmpl0_count ≡ st.tmpl0_count
  sub_eq : b.tmpl0_sub ≡ 0
  num_pos : 0 < b.tmpl0_num_sub

build_sub-Built : (cfg : ℕ → ℕ) (st : MopState) → Built st (build_sub cfg (start_iteration st))
unfolding build_sub
build_sub-Built cfg st = record {
  active_eq = ground arith;
  tmpl_eq = ground arith;
  mask_eq = ground arith;
  i_eq = ground arith;
  count_eq = ground arith;
  sub_eq = ground arith;
  num_pos = ground arith;
}

slice-suc :
    (buf : ℕ → ℕ) {n m : ℕ} (from : ℕ)
    → n ≡ suc m
    → slice buf n from ≡ buf from ∷ slice buf m (from + 1)
unfolding slice
slice-suc buf from e = rw e refl

groups-suc :
    (cfg : ℕ → ℕ) {n m : ℕ} (mask : ℕ)
    → n ≡ suc m
    → groups cfg n mask ≡ group cfg (field mask 0 1) ++ groups cfg m (mask / 2)
unfolding groups
groups-suc cfg mask e = rw e refl

-- With the buffer used up, what remains is groups.
remaining-used_up :
    (cfg : ℕ → ℕ) (st : MopState)
    → st.tmpl0_num_sub - st.tmpl0_sub ≡ 0
    → remaining cfg st ≡ groups cfg (st.tmpl0_count - st.tmpl0_i) st.tmpl0_mask
unfolding remaining slice
remaining-used_up cfg st e = rw e refl

-- Handing out an instruction of the buffer.
remaining-emit_sub :
    (cfg : ℕ → ℕ) (st : MopState)
    → st.tmpl0_sub < st.tmpl0_num_sub
    → remaining cfg st
      ≡ st.tmpl0_sub_insns st.tmpl0_sub ∷ remaining cfg (record st { tmpl0_sub = st.tmpl0_sub + 1 })
unfolding remaining
remaining-emit_sub cfg st h =
    ap (λ xs. xs ++ groups cfg (st.tmpl0_count - st.tmpl0_i) st.tmpl0_mask)
      (slice-suc st.tmpl0_sub_insns {m = st.tmpl0_num_sub - (st.tmpl0_sub + 1)} st.tmpl0_sub
        (omega arith))

remaining-end_iteration :
    (cfg : ℕ → ℕ) (st b : MopState)
    → Built st b
    → slice b.tmpl0_sub_insns b.tmpl0_num_sub 0
        ++ groups cfg (st.tmpl0_count - u32 (st.tmpl0_i + 1)) (st.tmpl0_mask / 2)
      ≡ remaining cfg (end_iteration b)
unfolding remaining
remaining-end_iteration cfg st b built =
    let whole : b.tmpl0_num_sub ≡ b.tmpl0_num_sub - b.tmpl0_sub = omega (arith, built.sub_eq) in
    let left : st.tmpl0_count - u32 (st.tmpl0_i + 1) ≡ b.tmpl0_count - u32 (b.tmpl0_i + 1) =
      λ t. sym built.count_eq t - u32 (sym built.i_eq t + 1) in
    λ t.
      slice b.tmpl0_sub_insns (whole t) (sym built.sub_eq t)
      ++ groups cfg (left t) (sym built.mask_eq t / 2)

-- Starting an iteration leaves what remains as it was.
remaining-iteration :
    (cfg : ℕ → ℕ) (st : MopState)
    → IsValid st
    → st.tmpl0_num_sub - st.tmpl0_sub ≡ 0
    → st.tmpl0_i < st.tmpl0_count
    → remaining cfg st ≡ remaining cfg (end_iteration (build_sub cfg (start_iteration st)))
remaining-iteration cfg st v used more =
    let b : MopState = build_sub cfg (start_iteration st) in
    let built : Built st b = build_sub-Built cfg st in
    remaining-used_up cfg st used
    ∙ groups-suc cfg {m = st.tmpl0_count - u32 (st.tmpl0_i + 1)} st.tmpl0_mask
        (omega (arith, v.count_lt))
    ∙ ap (λ xs. xs ++ groups cfg (st.tmpl0_count - u32 (st.tmpl0_i + 1)) (st.tmpl0_mask / 2))
        (sym (slice-build_sub cfg st))
    ∙ remaining-end_iteration cfg st b built

t0-Yields :
    (cfg : ℕ → ℕ) (st : MopState)
    → IsValid st
    → Yields (remaining cfg) IsValid st (some (generate_next_t0 cfg st))
unfolding generate_next_t0
t0-Yields cfg st v = elim (dec_lt st.tmpl0_sub st.tmpl0_num_sub) [
  | yes inside ↦
      let e : ltb st.tmpl0_sub st.tmpl0_num_sub ≡ true = ground arith in
      yielded (st.tmpl0_sub_insns st.tmpl0_sub) (record st { tmpl0_sub = st.tmpl0_sub + 1 })
        (rw e refl) (remaining-emit_sub cfg st inside)
        (record { is_active = v.is_active; tmpl_eq = v.tmpl_eq; count_lt = v.count_lt })
  | no used ↦
      let e : ltb st.tmpl0_sub st.tmpl0_num_sub ≡ false = ground arith in
      elim (dec_lt st.tmpl0_i st.tmpl0_count) [
        | yes more ↦
            let m : leb st.tmpl0_count st.tmpl0_i ≡ false = ground arith in
            let b : MopState = build_sub cfg (start_iteration st) in
            let built : Built st b = build_sub-Built cfg st in
            yielded (b.tmpl0_sub_insns b.tmpl0_sub)
              (record (end_iteration b) { tmpl0_sub = b.tmpl0_sub + 1 }) (rw (e, m) refl)
              (remaining-iteration cfg st v (omega arith) more
                ∙ remaining-emit_sub cfg (end_iteration b)
                    (omega (arith, built.sub_eq, built.num_pos)))
              (record {
                is_active = built.active_eq ∙ v.is_active;
                tmpl_eq = built.tmpl_eq ∙ v.tmpl_eq;
                count_lt = omega (arith, built.count_eq, v.count_lt);
              })
        | no over ↦
            let m : leb st.tmpl0_count st.tmpl0_i ≡ true = ground arith in
            finished (record st { active = false }) (rw (e, m) refl) refl
              (remaining-used_up cfg st (omega arith) ∙ no_groups (omega arith))
      ]
]
  where
    no_groups :
        st.tmpl0_count - st.tmpl0_i ≡ 0
        → groups cfg (st.tmpl0_count - st.tmpl0_i) st.tmpl0_mask ≡ []
    no_groups z = unfold groups in rw z refl

generate_next-t0 :
    (cfg : ℕ → ℕ) (st : MopState)
    → not st.active ≡ false
    → (st.tmpl == 0) ≡ true
    → generate_next cfg st ≡ some (generate_next_t0 cfg st)
unfolding generate_next
generate_next-t0 cfg st on zero_th = rw (on, zero_th) refl

generate_next-Yields :
    (cfg : ℕ → ℕ) (st : MopState)
    → IsValid st
    → Yields (remaining cfg) IsValid st (generate_next cfg st)
generate_next-Yields cfg st v =
    subst (λ r. Yields (remaining cfg) IsValid st r)
      (sym (generate_next-t0 cfg st (ap not v.is_active) (ground (arith, v.tmpl_eq))))
      (t0-Yields cfg st v)

module _ (cfg : ℕ → ℕ) (zmask_hi16 param : ℕ) (template0 : field param 23 1 ≡ 0) where
  -- The mask of a template 0 MOP, whose low half the MOP brings and whose high half MOP_CFG.
  abbrev pub mask : ℕ
  mask = bit_or (u32 (zmask_hi16 * 2 ^ 16)) (field param 0 16)

  expand-t0 : expand cfg zmask_hi16 param ≡ expand_t0 zmask_hi16 param 0
  unfolding expand
  expand-t0 = rw template0 refl

  expand-IsValid : IsValid (expand cfg zmask_hi16 param)
  expand-IsValid =
      rw expand-t0 (record { is_active = refl; tmpl_eq = refl; count_lt = omega arith })

  remaining-expand :
      remaining cfg (expand cfg zmask_hi16 param) ≡ groups cfg (field param 16 7 + 1) mask
  remaining-expand =
      ap (remaining cfg) expand-t0
      ∙ remaining-used_up cfg (expand_t0 zmask_hi16 param 0) refl
      ∙ ap (λ (n : ℕ). groups cfg n mask) (omega arith)

  -- For a MOP of template 0 and any registers, calling the generator from the expansion state,
  -- one time more than there are instructions or oftener, hands out exactly the instruction
  -- group or the skip group of each bit of the mask, lowest bit first, and then says that there
  -- is no more.
  pub collect-expand_t0 :
      (n : ℕ)
      → suc (length (groups cfg (field param 16 7 + 1) mask)) ≤ n
      → collect n cfg (expand cfg zmask_hi16 param) ≡ (groups cfg (field param 16 7 + 1) mask, true)
  collect-expand_t0 n h =
      collect-view cfg (generate_next-Yields cfg) n (expand cfg zmask_hi16 param) expand-IsValid
        (omega (arith, ap length remaining-expand))
      ∙ ap (λ l. (l, true)) remaining-expand
