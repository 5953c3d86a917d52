-- ===== src/Sfpu/Disabled.antt =====
-- A lane that is not enabled keeps its registers and its predication through every instruction that
-- works on the enabled lanes.
use rv32_emu.Base.{
  ℕ, zero, suc, ◌≡◌, ◌≢◌, refl, subst, ◌∙◌, Bool, true, false, not, ◌&&◌, ◌==◌, leb, if◌then◌else◌,
  field, bit, bit_and, bit_or, bit_xor, Bool-cases, inl, inr, arith,
}
use native.Mathlib.Decide.{ℕ_discrete}
use rv32_emu.Core.{Sfpu}
use rv32_emu.Sfpu.Lanes.{
  each_lane, when_enabled, write_lreg, set_flag, vc_of, vd_of, mod1_of, writable, read_only,
  on_lanes, write_value, write_checked,
}
use rv32_emu.Sfpu.Integers.{
  sfploadi, sfpexexp, sfpexman, sfpiadd, sfpshft, sfpabs, sfpand, sfpor, sfpxor, sfpnot, sfpsetexp,
  sfpsetsgn, exexp_lane, exexp_value, below_bias, exman_value, iadd_flags, iadd_result, iadd_lane,
  shft_value, abs_value, source, op_value, not_value, setexp_value, setsgn_value, negative,
  loadi_result,
}
use rv32_emu.Sfpu.Moves.{swap_lane, sfpswap}

-- What a step leaves of a lane.
pub record Same (lane : ℕ) (s s' : Sfpu) : Type 0 where
  pub lreg : (r : ℕ) → s'.lreg r lane ≡ s.lreg r lane
  pub flags : s'.lane_flags lane ≡ s.lane_flags lane
  pub used : s'.use_lane_flags lane ≡ s.use_lane_flags lane

-- A loop body that changes its own lane alone.
abbrev Local : (ℕ → Sfpu → Sfpu) → Type 0
Local body = (l : ℕ) (s : Sfpu) (lane : ℕ) → lane ≢ l → Same lane s (body l s)

abbrev IsDisabled : Sfpu → ℕ → Type 0
IsDisabled s lane = (s.use_lane_flags lane ≡ true) × (s.lane_flags lane ≡ false)

unchanged : (lane : ℕ) (s : Sfpu) → Same lane s s
unchanged lane s = record { lreg = λ r. refl; flags = refl; used = refl }

chain : {lane : ℕ} {s t u : Sfpu} → Same lane s t → Same lane t u → Same lane s u
chain p q = record {
  lreg = λ r. q.lreg r ∙ p.lreg r;
  flags = q.flags ∙ p.flags;
  used = q.used ∙ p.used;
}

turn-Same :
    (body : ℕ → Sfpu → Sfpu)
    → Local body
    → (l : ℕ) (s : Sfpu) (lane : ℕ) → IsDisabled s lane
    → Same lane s (when_enabled body l s)
turn-Same body local l s lane d = elim (ℕ_discrete lane l) [
  | yes e ↦
      let used : s.use_lane_flags l ≡ true = subst (λ (k : ℕ). s.use_lane_flags k ≡ true) e d.0 in
      let flags : s.lane_flags l ≡ false = subst (λ (k : ℕ). s.lane_flags k ≡ false) e d.1 in
      rw (used, flags) (unchanged lane s)
  | no ne ↦ elim (Bool-cases (s.use_lane_flags l && not (s.lane_flags l))) [
    | inl off ↦ rw off (unchanged lane s)
    | inr on ↦ rw on (local l s lane ne)
  ]
]

loop-Same :
    (body : ℕ → Sfpu → Sfpu)
    → Local body
    → (n from : ℕ) (s : Sfpu) (lane : ℕ) → IsDisabled s lane
    → Same lane s (each_lane (when_enabled body) n from s)
unfolding each_lane
loop-Same body local zero from s lane d = unchanged lane s
loop-Same body local (suc n) from s lane d =
    let first : Same lane s (when_enabled body from s) = turn-Same body local from s lane d in
    chain first (
      loop-Same body local n (suc from) (when_enabled body from s) lane
        (first.used ∙ d.0, first.flags ∙ d.1))

on_lanes-Same :
    (vd : ℕ) (body : ℕ → Sfpu → Sfpu)
    → Local body
    → (s : Sfpu) (lane : ℕ) → IsDisabled s lane
    → Same lane s (on_lanes vd body s)
on_lanes-Same vd body local s lane d = elim (Bool-cases (read_only vd)) [
  | inl fixed ↦ rw fixed (unchanged lane s)
  | inr writes ↦ rw writes (loop-Same body local 32 0 s lane d)
]

write-Same : (r v l : ℕ) (s : Sfpu) (lane : ℕ) → lane ≢ l → Same lane s (write_lreg r l v s)
write-Same r v l s lane ne = record { lreg = λ r'. ground arith; flags = refl; used = refl }

flag-Same : (b : Bool) (l : ℕ) (s : Sfpu) (lane : ℕ) → lane ≢ l → Same lane s (set_flag l b s)
flag-Same b l s lane ne = record { lreg = λ r'. refl; flags = ground arith; used = refl }

if-Same :
    (b : Bool) (lane : ℕ) (s t u : Sfpu)
    → Same lane s t
    → Same lane s u
    → Same lane s (if b then t else u)
if-Same true lane s t u p q = p
if-Same false lane s t u p q = q

write_value-Local : (r : ℕ) (value : Sfpu → ℕ → ℕ) → Local (write_value r value)
write_value-Local r value l s lane ne = write-Same r (value s l) l s lane ne

write_checked-Local : (r : ℕ) (value : Sfpu → ℕ → ℕ) → Local (write_checked r value)
write_checked-Local r value l s lane ne =
    if-Same (writable r) lane s (write_value r value l s) s (write-Same r (value s l) l s lane ne)
      (unchanged lane s)

-- A flag, then its inversion, each where the instruction asks for it.
signs-Same :
    (skip b inv v : Bool) (l : ℕ) (s : Sfpu) (lane : ℕ)
    → lane ≢ l
    → Same lane s (
        if skip
        then s
        else if inv
        then set_flag l
            (not ((if b then set_flag l v s else s).lane_flags l))
            (if b then set_flag l v s else s)
        else (if b then set_flag l v s else s))
signs-Same skip b inv v l s lane ne =
    let signed : Sfpu = if b then set_flag l v s else s in
    let first : Same lane s signed =
      if-Same b lane s (set_flag l v s) s (flag-Same v l s lane ne) (unchanged lane s) in
    let inverted : Sfpu = set_flag l (not (signed.lane_flags l)) signed in
    let second : Same lane s inverted =
      chain first (flag-Same (not (signed.lane_flags l)) l signed lane ne) in
    if-Same skip lane s s (if inv then inverted else signed) (unchanged lane s)
      (if-Same inv lane s inverted signed second first)

exexp-Local : (imm : ℕ) → Local (exexp_lane imm)
exexp-Local imm l s lane ne =
    let t : Sfpu = write_checked (vd_of imm) (exexp_value imm) l s in
    chain (write_checked-Local (vd_of imm) (exexp_value imm) l s lane ne) (
      signs-Same (leb 8 (vd_of imm)) (bit (mod1_of imm) 1) (bit (mod1_of imm) 3)
        (below_bias imm s l) l t lane ne)

-- SFPIADD sets the flag where a bit of the mode is clear.
iadd_flags-Same :
    (vd mod1 result l : ℕ) (s : Sfpu) (lane : ℕ)
    → lane ≢ l
    → Same lane s (iadd_flags vd mod1 result l s)
iadd_flags-Same vd mod1 result l s lane ne = elim (Bool-cases (bit mod1 2)) [
  | inl keep ↦ rw keep (signs-Same (leb 8 vd) false (bit mod1 3) false l s lane ne)
  | inr sets ↦ rw sets (signs-Same (leb 8 vd) true (bit mod1 3) (negative result) l s lane ne)
]

iadd-Local : (imm : ℕ) → Local (iadd_lane imm)
iadd-Local imm l s lane ne =
    let t : Sfpu = write_value (vd_of imm) (iadd_result imm) l s in
    chain (write_value-Local (vd_of imm) (iadd_result imm) l s lane ne)
      (iadd_flags-Same (vd_of imm) (mod1_of imm) (iadd_result imm s l) l t lane ne)

swap-Local : (greater : ℕ → ℕ → Bool) (imm : ℕ) → Local (swap_lane greater imm)
swap-Local greater imm l s lane ne =
    let d : ℕ = s.lreg (vd_of imm) l in
    let c : ℕ = s.lreg (vc_of imm) l in
    let s' : Sfpu = if writable (vd_of imm) then write_lreg (vd_of imm) l c s else s in
    let first : Same lane s s' = write_checked-Local (vd_of imm) (λ t k. c) l s lane ne in
    let swapped : Sfpu = if writable (vc_of imm) then write_lreg (vc_of imm) l d s' else s' in
    let both : Same lane s swapped =
      chain first (write_checked-Local (vc_of imm) (λ t k. d) l s' lane ne) in
    let compared : Sfpu = if greater d c then swapped else s in
    if-Same (mod1_of imm == 0) lane s swapped (if mod1_of imm == 1 then compared else s) both (
      if-Same (mod1_of imm == 1) lane s compared s
        (if-Same (greater d c) lane s swapped s both (unchanged lane s)) (unchanged lane s))

value-Same :
    (vd : ℕ) (value : Sfpu → ℕ → ℕ) (s : Sfpu) (lane : ℕ)
    → IsDisabled s lane
    → Same lane s (on_lanes vd (write_value vd value) s)
value-Same vd value s lane d =
    on_lanes-Same vd (write_value vd value) (write_value-Local vd value) s lane d

checked-Same :
    (vd : ℕ) (value : Sfpu → ℕ → ℕ) (s : Sfpu) (lane : ℕ)
    → IsDisabled s lane
    → Same lane s (on_lanes vd (write_checked vd value) s)
checked-Same vd value s lane d =
    on_lanes-Same vd (write_checked vd value) (write_checked-Local vd value) s lane d

loadi-Same : (imm : ℕ) (s : Sfpu) (lane : ℕ) → IsDisabled s lane → Same lane s (sfploadi imm s)
unfolding sfploadi
loadi-Same imm s lane d = elim (Bool-cases (leb 8 (field imm 20 4))) [
  | inl fixed ↦ rw fixed (unchanged lane s)
  | inr writes ↦ rw writes (
      loop-Same (write_value (field imm 20 4) (loadi_result imm))
        (write_value-Local (field imm 20 4) (loadi_result imm)) 32 0 s lane d)
]

-- The instructions.
pub data LaneOp : Type 0 where
  loadi exexp exman iadd shft abs and or xor inv setexp setsgn swap : LaneOp

unfoldable pub run : (ℕ → ℕ → Bool) → LaneOp → ℕ → Sfpu → Sfpu
run greater loadi = sfploadi
run greater exexp = sfpexexp
run greater exman = sfpexman
run greater iadd = sfpiadd
run greater shft = sfpshft
run greater abs = sfpabs
run greater and = sfpand
run greater or = sfpor
run greater xor = sfpxor
run greater inv = sfpnot
run greater setexp = sfpsetexp
run greater setsgn = sfpsetsgn
run greater swap = sfpswap greater

-- A lane that is not enabled keeps every register and its predication through each of SFPLOADI,
-- SFPEXEXP, SFPEXMAN, SFPIADD, SFPSHFT, SFPABS, SFPAND, SFPOR, SFPXOR, SFPNOT, SFPSETEXP,
-- SFPSETSGN and SFPSWAP, whatever their bits and whatever compares the floats.
pub run-Same :
    (greater : ℕ → ℕ → Bool) (op : LaneOp) (imm : ℕ) (s : Sfpu) (lane : ℕ)
    → s.use_lane_flags lane ≡ true
    → s.lane_flags lane ≡ false
    → Same lane s (run greater op imm s)
unfolding run sfploadi sfpexexp sfpexman sfpiadd sfpshft sfpabs sfpand sfpor sfpxor sfpnot sfpsetexp
    sfpsetsgn sfpswap
run-Same greater loadi imm s lane u f = loadi-Same imm s lane (u, f)
run-Same greater exexp imm s lane u f =
    on_lanes-Same (vd_of imm) (exexp_lane imm) (exexp-Local imm) s lane (u, f)
run-Same greater exman imm s lane u f = checked-Same (vd_of imm) (exman_value imm) s lane (u, f)
run-Same greater iadd imm s lane u f =
    on_lanes-Same (vd_of imm) (iadd_lane imm) (iadd-Local imm) s lane (u, f)
run-Same greater shft imm s lane u f = checked-Same (vd_of imm) (shft_value imm) s lane (u, f)
run-Same greater abs imm s lane u f = value-Same (vd_of imm) (abs_value imm) s lane (u, f)
run-Same greater and imm s lane u f =
    value-Same (vd_of imm) (op_value bit_and (source imm) imm) s lane (u, f)
run-Same greater or imm s lane u f =
    value-Same (vd_of imm) (op_value bit_or (source imm) imm) s lane (u, f)
run-Same greater xor imm s lane u f =
    value-Same (vd_of imm) (op_value bit_xor (vd_of imm) imm) s lane (u, f)
run-Same greater inv imm s lane u f = value-Same (vd_of imm) (not_value imm) s lane (u, f)
run-Same greater setexp imm s lane u f = checked-Same (vd_of imm) (setexp_value imm) s lane (u, f)
run-Same greater setsgn imm s lane u f = value-Same (vd_of imm) (setsgn_value imm) s lane (u, f)
run-Same greater swap imm s lane u f =
    on_lanes-Same (vd_of imm) (swap_lane greater imm) (swap-Local greater imm) s lane (u, f)
