-- ===== src/Sfpu/Blocks.antt =====
-- Blocks of instructions that set no flags: they leave the predication of all lanes, and the stack.
use rv32_emu.Base.{
  ℕ, zero, suc, ◌==◌, field, bit_and, bit_or, bit_xor, ◌≡◌, refl, ap, ◌∙◌, Bool, true, false, List,
  [], ◌∷◌, leb, ◌&&◌, not, if◌then◌else◌,
}
use rv32_emu.Core.{Sfpu}
use rv32_emu.Sfpu.Lanes.{
  each_lane, when_enabled, write_lreg, write_value, write_checked, writable, read_only, on_lanes,
  vd_of, vc_of, mod1_of,
}
use rv32_emu.Sfpu.Integers.{
  loadi_result, exman_value, shft_value, abs_value, source, op_value, not_value, setexp_value,
  setsgn_value, sfploadi, sfpexman, sfpshft, sfpabs, sfpand, sfpor, sfpxor, sfpnot, sfpsetexp,
  sfpsetsgn,
}
use rv32_emu.Sfpu.Moves.{swap_lane, sfpswap}
use rv32_emu.Sfpu.Disabled.{
  LaneOp, loadi, exexp, exman, iadd, shft, abs, and, or, xor, inv, setexp, setsgn, swap, run,
}

unfoldable pub sets_flags : LaneOp → Bool
sets_flags exexp = true
sets_flags iadd = true
sets_flags op = false

-- The registers alone may differ.
abbrev pub Kept : Sfpu → Sfpu → Type 0
Kept s t = t ≡ record s { lreg = t.lreg }

chain : (s t u : Sfpu) → Kept s t → Kept t u → Kept s u
chain s t u p q = q ∙ ap (λ (x : Sfpu). record x { lreg = u.lreg }) p

if-Kept : (b : Bool) (s t u : Sfpu) → Kept s t → Kept s u → Kept s (if b then t else u)
if-Kept true s t u p q = p
if-Kept false s t u p q = q

abbrev Keeps : (ℕ → Sfpu → Sfpu) → Type 0
Keeps body = (l : ℕ) (s : Sfpu) → Kept s (body l s)

loop-Kept :
    (body : ℕ → Sfpu → Sfpu)
    → Keeps body
    → (n from : ℕ) (s : Sfpu) → Kept s (each_lane (when_enabled body) n from s)
unfolding each_lane
loop-Kept body keeps zero from s = refl
loop-Kept body keeps (suc n) from s =
    let t : Sfpu = when_enabled body from s in
    chain s t (each_lane (when_enabled body) n (suc from) t)
      (if-Kept (s.use_lane_flags from && not (s.lane_flags from)) s s (body from s) refl
        (keeps from s))
      (loop-Kept body keeps n (suc from) t)

on_lanes-Kept :
    (vd : ℕ) (body : ℕ → Sfpu → Sfpu) → Keeps body → (s : Sfpu) → Kept s (on_lanes vd body s)
on_lanes-Kept vd body keeps s =
    if-Kept (read_only vd) s s (each_lane (when_enabled body) 32 0 s) refl
      (loop-Kept body keeps 32 0 s)

value-Keeps : (r : ℕ) (value : Sfpu → ℕ → ℕ) → Keeps (write_value r value)
value-Keeps r value l s = refl

checked-Keeps : (r : ℕ) (value : Sfpu → ℕ → ℕ) → Keeps (write_checked r value)
checked-Keeps r value l s = if-Kept (writable r) s (write_value r value l s) s refl refl

swap-Keeps : (greater : ℕ → ℕ → Bool) (imm : ℕ) → Keeps (swap_lane greater imm)
swap-Keeps greater imm l s =
    let d : ℕ = s.lreg (vd_of imm) l in
    let c : ℕ = s.lreg (vc_of imm) l in
    let s' : Sfpu = if writable (vd_of imm) then write_lreg (vd_of imm) l c s else s in
    let swapped : Sfpu = if writable (vc_of imm) then write_lreg (vc_of imm) l d s' else s' in
    let both : Kept s swapped =
      chain s s' swapped (checked-Keeps (vd_of imm) (λ t k. c) l s)
        (checked-Keeps (vc_of imm) (λ t k. d) l s') in
    let compared : Sfpu = if greater d c then swapped else s in
    if-Kept (mod1_of imm == 0) s swapped (if mod1_of imm == 1 then compared else s) both
      (if-Kept (mod1_of imm == 1) s compared s (if-Kept (greater d c) s swapped s both refl) refl)

plain-Kept :
    (greater : ℕ → ℕ → Bool) (op : LaneOp) (imm : ℕ) (s : Sfpu)
    → sets_flags op ≡ false
    → Kept s (run greater op imm s)
unfolding sets_flags run sfploadi sfpexman sfpshft sfpabs sfpand sfpor sfpxor sfpnot sfpsetexp
    sfpsetsgn sfpswap
plain-Kept greater exexp imm s h = cc
plain-Kept greater iadd imm s h = cc
plain-Kept greater loadi imm s h =
    let vd : ℕ = field imm 20 4 in
    let value : Sfpu → ℕ → ℕ = loadi_result imm in
    if-Kept (leb 8 vd) s s (each_lane (when_enabled (write_value vd value)) 32 0 s) refl
      (loop-Kept (write_value vd value) (value-Keeps vd value) 32 0 s)
plain-Kept greater exman imm s h =
    on_lanes-Kept (vd_of imm) (write_checked (vd_of imm) (exman_value imm))
      (checked-Keeps (vd_of imm) (exman_value imm)) s
plain-Kept greater shft imm s h =
    on_lanes-Kept (vd_of imm) (write_checked (vd_of imm) (shft_value imm))
      (checked-Keeps (vd_of imm) (shft_value imm)) s
plain-Kept greater abs imm s h =
    on_lanes-Kept (vd_of imm) (write_value (vd_of imm) (abs_value imm))
      (value-Keeps (vd_of imm) (abs_value imm)) s
plain-Kept greater and imm s h =
    on_lanes-Kept (vd_of imm) (write_value (vd_of imm) (op_value bit_and (source imm) imm))
      (value-Keeps (vd_of imm) (op_value bit_and (source imm) imm)) s
plain-Kept greater or imm s h =
    on_lanes-Kept (vd_of imm) (write_value (vd_of imm) (op_value bit_or (source imm) imm))
      (value-Keeps (vd_of imm) (op_value bit_or (source imm) imm)) s
plain-Kept greater xor imm s h =
    on_lanes-Kept (vd_of imm) (write_value (vd_of imm) (op_value bit_xor (vd_of imm) imm))
      (value-Keeps (vd_of imm) (op_value bit_xor (vd_of imm) imm)) s
plain-Kept greater inv imm s h =
    on_lanes-Kept (vd_of imm) (write_value (vd_of imm) (not_value imm))
      (value-Keeps (vd_of imm) (not_value imm)) s
plain-Kept greater setexp imm s h =
    on_lanes-Kept (vd_of imm) (write_checked (vd_of imm) (setexp_value imm))
      (checked-Keeps (vd_of imm) (setexp_value imm)) s
plain-Kept greater setsgn imm s h =
    on_lanes-Kept (vd_of imm) (write_value (vd_of imm) (setsgn_value imm))
      (value-Keeps (vd_of imm) (setsgn_value imm)) s
plain-Kept greater swap imm s h =
    on_lanes-Kept (vd_of imm) (swap_lane greater imm) (swap-Keeps greater imm) s

-- A block of instructions, each with its 24 bits.
pub run_block : (ℕ → ℕ → Bool) → List (LaneOp × ℕ) → Sfpu → Sfpu
run_block greater [] s = s
run_block greater ((op, imm) ∷ block) s = run_block greater block (run greater op imm s)

abbrev pub IsPlain : List (LaneOp × ℕ) → Type 0
IsPlain [] = Unit {0}
IsPlain ((op, imm) ∷ block) = (sets_flags op ≡ false) × IsPlain block

pub run_block-Kept :
    (greater : ℕ → ℕ → Bool) (block : List (LaneOp × ℕ)) (s : Sfpu)
    → IsPlain block
    → Kept s (run_block greater block s)
unfolding run_block
run_block-Kept greater [] s h = refl
run_block-Kept greater ((op, imm) ∷ block) s h =
    chain s (run greater op imm s) (run_block greater block (run greater op imm s))
      (plain-Kept greater op imm s h.0) (run_block-Kept greater block (run greater op imm s) h.1)
