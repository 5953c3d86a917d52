-- ===== src/Sfpu/Views.antt =====
-- What the predication instructions make of one lane, whatever the others are.
use rv32_emu.Base.{
  ℕ, zero, suc, ◌+◌, ◌-◌, ◌≤◌, ◌<◌, ◌≡◌, ◌≢◌, refl, sym, ap, ◌∙◌, fun_ext, Bool, true, false, not,
  ◌&&◌, ◌||◌, ◌==◌, leb, ltb, if◌then◌else◌, update, update_self, update-ne, bit, arith,
}
use mathlib.Core.Path.{ap₂}
use native.Mathlib.Decide.{ℕ_discrete}
use rv32_emu.Core.{Sfpu}
use rv32_emu.Sfpu.Lanes.{each_lane, set_flag, imm12_of, vc_of, mod1_of, lane_enabled}
use rv32_emu.Sfpu.Predication.{
  setcc_lane, compc_lane, pushc_lane, popc_lane, condition, unless_high, set_top, top_flags,
  top_use,
}

-- What the predication instructions read and write of one lane.
pub record LaneView : Type 0 where
  pub flags : Bool
  pub used : Bool
  pub depth : ℕ
  pub saved_flags : ℕ → Bool
  pub saved_used : ℕ → Bool
  pub lreg : ℕ → ℕ

abbrev pub view : ℕ → Sfpu → LaneView
view lane s = record {
  flags = s.lane_flags lane;
  used = s.use_lane_flags lane;
  depth = s.depth;
  saved_flags = λ i. s.stack_lane_flags i lane;
  saved_used = λ i. s.stack_use_lane_flags i lane;
  lreg = λ r. s.lreg r lane;
}

-- A loop whose body changes its own lane alone, and that by a function of the lane's view.
module _ (body : ℕ → Sfpu → Sfpu) (f : LaneView → LaneView)
    (own : (l : ℕ) (s : Sfpu) → view l (body l s) ≡ f (view l s))
    (others : (l : ℕ) (s : Sfpu) (lane : ℕ) → lane ≢ l → view lane (body l s) ≡ view lane s) where
  loop-outside :
      (n from : ℕ) (s : Sfpu) (lane : ℕ)
      → lane < from
      → view lane (each_lane body n from s) ≡ view lane s
  unfolding each_lane
  loop-outside zero from s lane h = refl
  loop-outside (suc n) from s lane h =
      loop-outside n (suc from) (body from s) lane (omega arith) ∙ others from s lane (omega arith)

  pub loop-view :
      (n from : ℕ) (s : Sfpu) (lane : ℕ)
      → from ≤ lane
      → lane < from + n
      → view lane (each_lane body n from s) ≡ f (view lane s)
  unfolding each_lane
  loop-view zero from s lane h k = absurd (omega arith)
  loop-view (suc n) from s lane h k = elim (ℕ_discrete lane from) [
    | yes e ↦
        loop-outside n (suc from) (body from s) lane (omega arith)
        ∙ ap (λ (l : ℕ). view l (body from s)) e
        ∙ own from s
        ∙ ap (λ (l : ℕ). f (view l s)) (sym e)
    | no ne ↦
        loop-view n (suc from) (body from s) lane (omega arith) (omega arith)
        ∙ ap f (others from s lane ne)
  ]

-- Writes of another lane's flags.
set_flag-others :
    (b : Bool) (l : ℕ) (s : Sfpu) (lane : ℕ) → lane ≢ l → view lane (set_flag l b s) ≡ view lane s
set_flag-others b l s lane ne =
    ap (λ (q : Bool). record (view lane s) { flags = q }) (update-ne s.lane_flags l lane b ne)

set_flag-own :
    (b : Bool) (l : ℕ) (s : Sfpu) → view l (set_flag l b s) ≡ record (view l s) { flags = b }
set_flag-own b l s =
    ap (λ (q : Bool). record (view l s) { flags = q }) (update_self s.lane_flags l b)

entry-others :
    (f : ℕ → ℕ → Bool) (top l : ℕ) (b : Bool) (lane : ℕ)
    → lane ≢ l
    → ◌≡◌ {A = ℕ → Bool} (λ i. update f top (update (f top) l b) i lane) (λ i. f i lane)
entry-others f top l b lane ne = fun_ext λ i. ground arith

entry-own :
    (f : ℕ → ℕ → Bool) (top l : ℕ) (b : Bool)
    → ◌≡◌ {A = ℕ → Bool} (λ i. update f top (update (f top) l b) i l) (update (λ i. f i l) top b)
entry-own f top l b = fun_ext λ i. ground arith

set_top-others :
    (used flags : Bool) (l : ℕ) (s : Sfpu) (lane : ℕ)
    → lane ≢ l
    → view lane (set_top l used flags s) ≡ view lane s
set_top-others used flags l s lane ne =
    ap₂ (λ (q u : ℕ → Bool). record (view lane s) { saved_flags = q; saved_used = u })
      (entry-others s.stack_lane_flags (s.depth - 1) l flags lane ne)
      (entry-others s.stack_use_lane_flags (s.depth - 1) l used lane ne)

set_top-own :
    (used flags : Bool) (l : ℕ) (s : Sfpu)
    → view l (set_top l used flags s) ≡ record (view l s) {
      saved_flags = update (view l s).saved_flags (s.depth - 1) flags;
      saved_used = update (view l s).saved_used (s.depth - 1) used;
    }
set_top-own used flags l s =
    ap₂ (λ (q u : ℕ → Bool). record (view l s) { saved_flags = q; saved_used = u })
      (entry-own s.stack_lane_flags (s.depth - 1) l flags)
      (entry-own s.stack_use_lane_flags (s.depth - 1) l used)

pub view-if :
    (b : Bool) (lane : ℕ) (t u : Sfpu) {v w : LaneView}
    → view lane t ≡ v
    → view lane u ≡ w
    → view lane (if b then t else u) ≡ (if b then v else w)
view-if true lane t u p q = p
view-if false lane t u p q = q

pub if-others :
    (b : Bool) (lane : ℕ) (s t u : Sfpu)
    → view lane t ≡ view lane s
    → view lane u ≡ view lane s
    → view lane (if b then t else u) ≡ view lane s
if-others true lane s t u p q = p
if-others false lane s t u p q = q

-- A plain push, SETCC by a condition, COMPC and a plain pop, on a lane's view.
abbrev pub push_view : LaneView → LaneView
push_view v = if v.depth == 0 then v else record v {
  saved_flags = update v.saved_flags (v.depth - 1) v.flags;
  saved_used = update v.saved_used (v.depth - 1) v.used;
}

abbrev pub setcc_view : ℕ → LaneView → LaneView
setcc_view imm v =
    if not (not v.used || v.flags)
    then v
    else if not v.used
    then record v { flags = false }
    else record v { flags = condition (mod1_of imm) (v.lreg (vc_of imm)) v.flags }

abbrev pub compc_view : LaneView → LaneView
compc_view v = record v {
  flags =
      if (if ltb 0 v.depth then v.saved_used (v.depth - 1) else true) && v.used
      then (if ltb 0 v.depth then v.saved_flags (v.depth - 1) else true) && not v.flags
      else false;
}

abbrev pub popc_view : LaneView → LaneView
popc_view v = record v {
  flags = if ltb 0 v.depth then v.saved_flags (v.depth - 1) else false;
  used = if ltb 0 v.depth then v.saved_used (v.depth - 1) else false;
}

-- The instructions on the view of a lane, for registers below 12.
abbrev pub ViewOf : (ℕ → Sfpu → Sfpu) → (LaneView → LaneView) → Type 0
ViewOf body f =
    ((l : ℕ) (s : Sfpu) → view l (body l s) ≡ f (view l s))
    × ((l : ℕ) (s : Sfpu) (lane : ℕ) → lane ≢ l → view lane (body l s) ≡ view lane s)

pub unless_high-view :
    (vd : ℕ) (body : ℕ → Sfpu → Sfpu) (f : LaneView → LaneView)
    → ViewOf body f
    → vd < 12
    → (s : Sfpu) (lane : ℕ) → lane < 32
    → view lane (unless_high vd body s) ≡ f (view lane s)
unless_high-view vd body f bodies low s lane h =
    let is_low : leb 12 vd ≡ false = ground arith in
    rw is_low (loop-view body f bodies.0 bodies.1 32 0 s lane (omega arith) (omega arith))

pub compc-ViewOf : ViewOf compc_lane compc_view
compc-ViewOf = (λ l s. set_flag-own _ l s, λ l s lane ne. set_flag-others _ l s lane ne)

pub setcc-ViewOf :
    (imm : ℕ)
    → bit (mod1_of imm) 3 ≡ false
    → bit (mod1_of imm) 0 ≡ false
    → ViewOf (setcc_lane imm) (setcc_view imm)
setcc-ViewOf imm no_clear no_imm = (own, others)
  where
    flag : ℕ → Sfpu → Bool
    flag l s = condition (mod1_of imm) (s.lreg (vc_of imm) l) (s.lane_flags l)

    used_lane : ℕ → Sfpu → Sfpu
    used_lane l s =
        if bit (mod1_of imm) 3
        then set_flag l false s
        else if bit (mod1_of imm) 0
        then set_flag l (bit (imm12_of imm) 0) s
        else set_flag l (flag l s) s

    plain : (l : ℕ) (s : Sfpu) → used_lane l s ≡ set_flag l (flag l s) s
    plain l s = rw (no_clear, no_imm) refl

    own : (l : ℕ) (s : Sfpu) → view l (setcc_lane imm l s) ≡ setcc_view imm (view l s)
    own l s =
        view-if (not (lane_enabled s l)) l s
          (if not (s.use_lane_flags l) then set_flag l false s else used_lane l s) refl
          (view-if (not (s.use_lane_flags l)) l (set_flag l false s) (used_lane l s)
            (set_flag-own false l s) (ap (view l) (plain l s) ∙ set_flag-own (flag l s) l s))

    others : (l : ℕ) (s : Sfpu) (lane : ℕ) → lane ≢ l → view lane (setcc_lane imm l s) ≡ view lane s
    others l s lane ne =
        if-others (not (lane_enabled s l)) lane s s
          (if not (s.use_lane_flags l) then set_flag l false s else used_lane l s) refl
          (if-others (not (s.use_lane_flags l)) lane s (set_flag l false s) (used_lane l s)
            (set_flag-others false l s lane ne)
            (ap (view lane) (plain l s) ∙ set_flag-others (flag l s) l s lane ne))

-- A plain push and a plain pop.
pub pushc-ViewOf : ViewOf (pushc_lane 0) push_view
pushc-ViewOf = (
  λ l s.
      view-if (s.depth == 0) l s (set_top l (s.use_lane_flags l) (s.lane_flags l) s) refl
        (set_top-own (s.use_lane_flags l) (s.lane_flags l) l s),
  λ l s lane ne.
      if-others (s.depth == 0) lane s s (set_top l (s.use_lane_flags l) (s.lane_flags l) s) refl
        (set_top-others (s.use_lane_flags l) (s.lane_flags l) l s lane ne),
)

pub popc-ViewOf : ViewOf (popc_lane 0) popc_view
popc-ViewOf = (
  λ l s.
      ap₂ (λ (q u : Bool). record (view l s) { flags = q; used = u })
        (update_self s.lane_flags l (top_flags false s l))
        (update_self s.use_lane_flags l (top_use false s l)),
  λ l s lane ne.
      ap₂ (λ (q u : Bool). record (view lane s) { flags = q; used = u })
        (update-ne s.lane_flags l lane (top_flags false s l) ne)
        (update-ne s.use_lane_flags l lane (top_use false s l) ne),
)
