-- ===== src/Sfpu/Tests.antt =====
-- The vector unit's theorems on registers whose even lanes hold a negative number.
use native.Mathlib.Omega.{arith}
use rv32_emu.Base.{
  ◌+◌, ◌^◌, ◌≤◌, ◌<◌, ◌≡◌, ◌&&◌, ◌==◌, ◌%◌, refl, true, false, not, leb, [], ◌∷◌, if◌then◌else◌,
}
use rv32_emu.Core.{Sfpu}
use rv32_emu.Sfpu.Lanes.{vc_of, mod1_of}
use rv32_emu.Sfpu.Predication.{sfppushc, sfpsetcc, sfpcompc, sfppopc, condition}
use rv32_emu.Sfpu.Disabled.{Same, loadi, iadd, setsgn, run, run-Same}
use rv32_emu.Sfpu.Blocks.{run_block, sets_flags}
use rv32_emu.Sfpu.Branches.{IsConditional, branches}
use rv32_emu.Sfpu.Arithmetic.{sfpcast, sfpstochrnd}
use rv32_emu.Sfpu.Curves.{sfparecip_approx_recip}
use rv32_emu.Sfpu.Words.{sfpcast-sfpcast}
use rv32_emu.Sfpu.Rounding.{sfpstochrnd-nearest}
use rv32_emu.Sfpu.Reciprocal.{sfparecip_approx_recip-antitone}
use rv32_emu.Matrix.Tests.{words_ops}

-- The predication is on for all lanes, and lanes from 16 are off.
abbrev lanes : Sfpu
lanes = record {
  lreg = λ r lane. if lane % 2 == 0 then 0x80000001 else 7;
  lane_flags = λ lane. not (leb 16 lane);
  use_lane_flags = λ lane. true;
  stack_lane_flags = λ i lane. false;
  stack_use_lane_flags = λ i lane. false;
  depth = 2;
  prng_state = λ lane. 0;
}

-- SFPIADD of register 2 to register 1, with flags.
run-Same_example : Same 20 lanes (run (λ a b. leb b a) iadd 0x000210 lanes)
run-Same_example = run-Same (λ a b. leb b a) iadd 0x000210 lanes 20 refl refl

conditional : IsConditional 0 0x000300 0 0
conditional = record {
  plain_push = refl;
  plain_pop = refl;
  no_clear = refl;
  no_constant = refl;
  push_low = omega arith;
  set_low = omega arith;
  inv_low = omega arith;
  pop_low = omega arith;
}

-- if register 3 is negative, then register 1 gets 5, else the sign of register 2 changes.
branches_example :
    let holds = condition (mod1_of 0x000300) (lanes.lreg (vc_of 0x000300) 4) true in
    let opened = sfpsetcc 0x000300 (sfppushc 0 lanes) in
    let turned = sfpcompc 0 (run_block (λ a b. leb b a) ((loadi, 0x120005) ∷ []) opened) in
    let closed = sfppopc 0 (run_block (λ a b. leb b a) ((setsgn, 0x001220) ∷ []) turned) in
    (opened.lane_flags 4 ≡ (lanes.lane_flags 4 && holds))
    × (turned.lane_flags 4 ≡ (lanes.lane_flags 4 && not holds))
    × (closed.lane_flags 4 ≡ lanes.lane_flags 4)
    × (closed.use_lane_flags 4 ≡ true)
    × (closed.depth ≡ lanes.depth)
unfolding sets_flags
branches_example =
    branches (λ a b. leb b a) 0 0x000300 0 0 ((loadi, 0x120005) ∷ []) ((setsgn, 0x001220) ∷ [])
      lanes 4 conditional (refl, tt) (refl, tt) (omega arith) (omega arith) refl

-- SFPCAST of register 1 to register 2 and of that to register 3, in a lane with -2^31 + 1.
sfpcast-sfpcast_example :
    (sfpcast words_ops 0x000233 (sfpcast words_ops 0x000123 lanes)).lreg 3 2 ≡ 0x80000001
sfpcast-sfpcast_example =
    sfpcast-sfpcast words_ops 0x000123 0x000233 lanes 2 refl refl (omega arith) (omega arith) refl
      (omega arith) refl (omega arith)

-- A float between two that BF16 has, rounded to one of them.
abbrev floats : Sfpu
floats = record lanes { lreg = λ r lane. 0x3F80C001 }

sfpstochrnd-nearest_example :
    let y = (sfpstochrnd 0x000121 floats).lreg 2 4 in
    (y % 2 ^ 16 ≡ 0) × (y ≤ 0x3F80C001 + 2 ^ 15) × (0x3F80C001 < y + 2 ^ 15)
sfpstochrnd-nearest_example =
    sfpstochrnd-nearest 0x000121 floats 4 refl (omega arith) (omega arith) (omega arith) refl
      (omega arith) (omega arith) (omega arith)

sfparecip_approx_recip-antitone_example :
    sfparecip_approx_recip 0x40490FDB ≤ sfparecip_approx_recip 0x3F800000
sfparecip_approx_recip-antitone_example =
    sfparecip_approx_recip-antitone 0x3F800000 0x40490FDB (omega arith)
