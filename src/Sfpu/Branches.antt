-- ===== src/Sfpu/Branches.antt =====
-- A conditional of the vector unit: PUSHC, SETCC, the lanes that fulfil the condition, COMPC, the
-- others, POPC.
use rv32_emu.Base.{
  ℕ, ◌+◌, ◌-◌, ◌<◌, ◌≡◌, refl, ap, ◌∙◌, Bool, true, false, not, ◌&&◌, ◌==◌, ltb, List, update,
  update_self, bit, arith,
}
use rv32_emu.Core.{Sfpu}
use rv32_emu.Sfpu.Lanes.{vc_of, vd_of, mod1_of}
use rv32_emu.Sfpu.Predication.{
  sfppushc, sfpsetcc, sfpcompc, sfppopc, setcc_lane, compc_lane, pushc_lane, popc_lane, condition,
  grow, shrink, unless_high,
}
use rv32_emu.Sfpu.Disabled.{LaneOp}
use rv32_emu.Sfpu.Blocks.{IsPlain, run_block, run_block-Kept}
use rv32_emu.Sfpu.Views.{
  LaneView, view, unless_high-view, pushc-ViewOf, setcc-ViewOf, compc-ViewOf, popc-ViewOf,
  push_view, setcc_view, compc_view, popc_view,
}

-- The views of an enabled lane on the way, `d` entries below the conditional's own.
module _ (d : ℕ) where
  not_empty : (d + 1 == 0) ≡ false
  not_empty = ground arith

  has_top : ltb 0 (d + 1) ≡ true
  has_top = ground arith

  top : d + 1 - 1 ≡ d
  top = omega arith

  abbrev at : Bool → (ℕ → Bool) → (ℕ → Bool) → (ℕ → ℕ) → LaneView
  at f sf su r = record {
    flags = f;
    used = true;
    depth = d + 1;
    saved_flags = sf;
    saved_used = su;
    lreg = r;
  }

  pushed :
      (f : Bool) (sf su : ℕ → Bool) (r : ℕ → ℕ)
      → push_view (at f sf su r) ≡ at f (update sf d f) (update su d true) r
  pushed f sf su r = rw (not_empty, top) refl

  tested :
      (imm : ℕ) (f : Bool) (sf su : ℕ → Bool) (r : ℕ → ℕ)
      → setcc_view imm (at f sf su r)
        ≡ at (f && condition (mod1_of imm) (r (vc_of imm)) true) sf su r
  tested imm true sf su r = refl
  tested imm false sf su r = refl

  turned :
      (f c : Bool) (sf su : ℕ → Bool) (r : ℕ → ℕ)
      → compc_view (at c (update sf d f) (update su d true) r)
        ≡ at (f && not c) (update sf d f) (update su d true) r
  turned f c sf su r = rw (has_top, top, update_self sf d f, update_self su d true) refl

  closed :
      (f c : Bool) (sf su : ℕ → Bool) (r : ℕ → ℕ)
      → popc_view (at c (update sf d f) (update su d true) r)
        ≡ at f (update sf d f) (update su d true) r
  closed f c sf su r = rw (has_top, top, update_self sf d f, update_self su d true) refl

-- The four instructions of a conditional: a plain push and a plain pop, a condition on a register,
-- and none of them for the registers 12 to 15.
pub record IsConditional (push set inv pop : ℕ) : Type 0 where
  pub plain_push : mod1_of push ≡ 0
  pub plain_pop : mod1_of pop ≡ 0
  pub no_clear : bit (mod1_of set) 3 ≡ false
  pub no_constant : bit (mod1_of set) 0 ≡ false
  pub push_low : vd_of push < 12
  pub set_low : vd_of set < 12
  pub inv_low : vd_of inv < 12
  pub pop_low : vd_of pop < 12

-- Each instruction on a lane whose view is known.
module _ (lane : ℕ) (h : lane < 32) where
  push-step :
      (push : ℕ) (s : Sfpu)
      → mod1_of push ≡ 0
      → vd_of push < 12
      → s.depth < 8
      → s.use_lane_flags lane ≡ true
      → view lane (sfppushc push s)
        ≡ at s.depth
            (s.lane_flags lane)
            (update (λ i. s.stack_lane_flags i lane) s.depth (s.lane_flags lane))
            (update (λ i. s.stack_use_lane_flags i lane) s.depth true)
            (λ r. s.lreg r lane)
  unfolding sfppushc
  push-step push s plain low room used =
      let is_low : ltb (vd_of push) 12 ≡ true = ground arith in
      let has_room : ltb s.depth 8 ≡ true = ground arith in
      let sf : ℕ → Bool = λ i. s.stack_lane_flags i lane in
      let su : ℕ → Bool = λ i. s.stack_use_lane_flags i lane in
      let regs : ℕ → ℕ = λ r. s.lreg r lane in
      let grown : Sfpu = record s { depth = s.depth + 1 } in
      let grows : grow 0 (vd_of push) s ≡ grown = rw (is_low, has_room) refl in
      let start : view lane grown ≡ at s.depth (s.lane_flags lane) sf su regs =
        ap (λ (u : Bool). record (view lane grown) { used = u }) used in
      ap (λ (m : ℕ). view lane (unless_high (vd_of push) (pushc_lane m) (grow m (vd_of push) s)))
        plain
      ∙ ap (λ (t : Sfpu). view lane (unless_high (vd_of push) (pushc_lane 0) t)) grows
      ∙ unless_high-view (vd_of push) (pushc_lane 0) push_view pushc-ViewOf low grown lane h
      ∙ ap push_view start
      ∙ pushed s.depth (s.lane_flags lane) sf su regs

  set-step :
      (set d : ℕ) (f : Bool) (sf su : ℕ → Bool) (regs : ℕ → ℕ) (s : Sfpu)
      → bit (mod1_of set) 3 ≡ false
      → bit (mod1_of set) 0 ≡ false
      → vd_of set < 12
      → view lane s ≡ at d f sf su regs
      → view lane (sfpsetcc set s)
        ≡ at d (f && condition (mod1_of set) (regs (vc_of set)) true) sf su regs
  unfolding sfpsetcc
  set-step set d f sf su regs s no_clear no_constant low is =
      unless_high-view (vd_of set) (setcc_lane set) (setcc_view set)
        (setcc-ViewOf set no_clear no_constant) low s lane h
      ∙ ap (setcc_view set) is
      ∙ tested d set f sf su regs

  block-step :
      (greater : ℕ → ℕ → Bool) (block : List (LaneOp × ℕ)) (d : ℕ) (f : Bool) (sf su : ℕ → Bool)
      (regs : ℕ → ℕ) (s : Sfpu)
      → IsPlain block
      → view lane s ≡ at d f sf su regs
      → view lane (run_block greater block s)
        ≡ at d f sf su (λ r. (run_block greater block s).lreg r lane)
  block-step greater block d f sf su regs s plain is =
      ap (view lane) (run_block-Kept greater block s plain)
      ∙ ap (λ (v : LaneView). record v { lreg = λ r. (run_block greater block s).lreg r lane }) is

  inv-step :
      (inv d : ℕ) (f c : Bool) (sf su : ℕ → Bool) (regs : ℕ → ℕ) (s : Sfpu)
      → vd_of inv < 12
      → view lane s ≡ at d c (update sf d f) (update su d true) regs
      → view lane (sfpcompc inv s) ≡ at d (f && not c) (update sf d f) (update su d true) regs
  unfolding sfpcompc
  inv-step inv d f c sf su regs s low is =
      unless_high-view (vd_of inv) compc_lane compc_view compc-ViewOf low s lane h
      ∙ ap compc_view is
      ∙ turned d f c sf su regs

  pop-step :
      (pop d : ℕ) (f c : Bool) (sf su : ℕ → Bool) (regs : ℕ → ℕ) (s : Sfpu)
      → mod1_of pop ≡ 0
      → vd_of pop < 12
      → view lane s ≡ at d c (update sf d f) (update su d true) regs
      → view lane (sfppopc pop s)
        ≡ record (at d f (update sf d f) (update su d true) regs) { depth = d }
  unfolding sfppopc
  pop-step pop d f c sf su regs s plain low is =
      let t : Sfpu = unless_high (vd_of pop) (popc_lane 0) s in
      let popped : view lane t ≡ at d f (update sf d f) (update su d true) regs =
        unless_high-view (vd_of pop) (popc_lane 0) popc_view popc-ViewOf low s lane h
        ∙ ap popc_view is
        ∙ closed d f c sf su regs in
      let depth : t.depth ≡ d + 1 = ap (λ (v : LaneView). v.depth) popped in
      let not_empty : ltb 0 t.depth ≡ true = ap (ltb 0) depth ∙ has_top d in
      let one_less : t.depth - 1 ≡ d = ap (λ (k : ℕ). k - 1) depth ∙ top d in
      let shrinks : shrink 0 t ≡ record t { depth = d } = rw (not_empty, one_less) refl in
      ap (λ (m : ℕ). view lane (shrink m (unless_high (vd_of pop) (popc_lane m) s))) plain
      ∙ ap (view lane) shrinks
      ∙ ap (λ (v : LaneView). record v { depth = d }) popped

-- On a lane whose predication is in use, with fewer than eight entries on the stack: after a
-- plain SFPPUSHC and an SFPSETCC by a condition on a register, none of the four instructions for
-- a register from 12 on, the lane is enabled if it was and the condition holds; after a block of
-- instructions that set no flags and SFPCOMPC, if it was and the condition does not hold; and
-- after another such block and a plain SFPPOPC, if it was, with its predication in use and the
-- stack as deep as before.
pub branches :
    (greater : ℕ → ℕ → Bool) (push set inv pop : ℕ) (first second : List (LaneOp × ℕ)) (s : Sfpu)
    (lane : ℕ)
    → IsConditional push set inv pop
    → IsPlain first
    → IsPlain second
    → lane < 32
    → s.depth < 8
    → s.use_lane_flags lane ≡ true
    → let holds = condition (mod1_of set) (s.lreg (vc_of set) lane) true in
      let opened = sfpsetcc set (sfppushc push s) in
      let turned = sfpcompc inv (run_block greater first opened) in
      let closed = sfppopc pop (run_block greater second turned) in
      (opened.lane_flags lane ≡ (s.lane_flags lane && holds))
      × (turned.lane_flags lane ≡ (s.lane_flags lane && not holds))
      × (closed.lane_flags lane ≡ s.lane_flags lane)
      × (closed.use_lane_flags lane ≡ true)
      × (closed.depth ≡ s.depth)
branches greater push set inv pop first second s lane ok plain1 plain2 h room used =
    let d : ℕ = s.depth in
    let f : Bool = s.lane_flags lane in
    let holds : Bool = condition (mod1_of set) (s.lreg (vc_of set) lane) true in
    let sf : ℕ → Bool = update (λ i. s.stack_lane_flags i lane) d f in
    let su : ℕ → Bool = update (λ i. s.stack_use_lane_flags i lane) d true in
    let pushed_state : Sfpu = sfppushc push s in
    let opened : Sfpu = sfpsetcc set pushed_state in
    let after_first : Sfpu = run_block greater first opened in
    let turned_state : Sfpu = sfpcompc inv after_first in
    let after_second : Sfpu = run_block greater second turned_state in
    let r0 : ℕ → ℕ = λ r. s.lreg r lane in
    let r1 : ℕ → ℕ = λ r. after_first.lreg r lane in
    let r2 : ℕ → ℕ = λ r. after_second.lreg r lane in
    let v1 : view lane opened ≡ at d (f && holds) sf su r0 =
      set-step lane h set d f sf su r0 pushed_state ok.no_clear ok.no_constant ok.set_low
        (push-step lane h push s ok.plain_push ok.push_low room used) in
    let v2 : view lane turned_state ≡ at d (f && not (f && holds)) sf su r1 =
      inv-step lane h inv d f (f && holds) (λ i. s.stack_lane_flags i lane)
        (λ i. s.stack_use_lane_flags i lane) r1 after_first ok.inv_low
        (block-step lane h greater first d (f && holds) sf su r0 opened plain1 v1) in
    let v3 : view lane (sfppopc pop after_second) ≡ record (at d f sf su r2) { depth = d } =
      pop-step lane h pop d f (f && not (f && holds)) (λ i. s.stack_lane_flags i lane)
        (λ i. s.stack_use_lane_flags i lane) r2 after_second ok.plain_pop ok.pop_low
        (block-step lane h greater second d (f && not (f && holds)) sf su r1 turned_state plain2
          v2) in
    (
      ap (λ (v : LaneView). v.flags) v1,
      ap (λ (v : LaneView). v.flags) v2 ∙ twice f holds,
      ap (λ (v : LaneView). v.flags) v3,
      ap (λ (v : LaneView). v.used) v3,
      ap (λ (v : LaneView). v.depth) v3,
    )
  where
    twice : (a b : Bool) → (a && not (a && b)) ≡ (a && not b)
    twice true b = refl
    twice false b = refl
