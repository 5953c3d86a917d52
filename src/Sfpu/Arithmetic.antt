-- ===== src/Sfpu/Arithmetic.antt =====
-- The floating-point instructions of the vector unit: SFPMULI, SFPADDI, SFPMAD, SFPADD and SFPMUL,
-- the rounding of SFPSTOCHRND and the casts of SFPCAST.
use rv32_emu.Base.{
  ℕ, ◌+◌, ◌-◌, ◌*◌, ◌/◌, ◌%◌, ◌^◌, not, ◌&&◌, ◌||◌, ◌==◌, leb, if◌then◌else◌, field, bit, u32,
  bit_or, bit_xor,
}
use rv32_emu.Core.{Sfpu}
use rv32_emu.Floats.{FloatOps}
use rv32_emu.Sfpu.Lanes.{
  lreg_lanes, each_lane, lane_enabled, when_enabled, write_lreg, write_checked, vc_of, vd_of,
  mod1_of, writable, on_lanes,
}
use rv32_emu.Sfpu.Integers.{negative, negate}
use rv32_emu.Sfpu.Moves.{next_prng, advance_prng}

-- The register that a lane writes: VD, or the one that register 7 names in that lane.
abbrev pub written : ℕ → Sfpu → ℕ → ℕ
written imm s lane =
    if bit imm 3 && not (vd_of imm == 16) then field (s.lreg 7 lane) 0 4 else vd_of imm

abbrev pub write_result : ℕ → ℕ → ℕ → Sfpu → Sfpu
write_result imm lane v s =
    let dst = written imm s lane in if writable dst then write_lreg dst lane v s else s

module _ (ops : FloatOps) where
  -- An operation on a 16-bit immediate, the upper half of a float, and VD.
  abbrev pub immediate_lane : (ℕ → ℕ → ℕ) → ℕ → ℕ → Sfpu → Sfpu
  immediate_lane f imm lane s =
      let c = s.lreg (vd_of imm) lane in
      let c' = if bit imm 1 then ops.neg c else c in
      write_result imm lane (f (field imm 8 16 * 2 ^ 16) c') s

  unfoldable pub sfpmuli : ℕ → Sfpu → Sfpu
  unfolding each_lane
  sfpmuli imm =
      each_lane (when_enabled (immediate_lane (λ b c. ops.add (ops.mul b c) 0) imm)) lreg_lanes 0

  unfoldable pub sfpaddi : ℕ → Sfpu → Sfpu
  unfolding each_lane
  sfpaddi imm = each_lane (when_enabled (immediate_lane ops.add imm)) lreg_lanes 0

  abbrev pub mad_lane : ℕ → ℕ → Sfpu → Sfpu
  mad_lane imm lane s =
      let src_a = if bit imm 2 then field (s.lreg 7 lane) 0 4 else field imm 16 4 in
      let a = s.lreg src_a lane in
      let b = s.lreg (field imm 12 4) lane in
      let c = s.lreg (vc_of imm) lane in
      let a' = if bit imm 0 then bit_xor a 0x80000000 else a in
      let c' = if bit imm 1 then bit_xor c 0x80000000 else c in
      if leb 12 (vd_of imm) || not (lane_enabled s lane)
      then s
      else write_result imm lane (ops.add (ops.mul a' b) c') s

  unfoldable pub sfp_mad_common : ℕ → Sfpu → Sfpu
  unfolding each_lane
  sfp_mad_common imm = each_lane (mad_lane imm) lreg_lanes 0

  -- Two's complement to sign and magnitude or back, the absolute value, or sign and magnitude to a
  -- float.
  unfoldable pub cast_word : ℕ → ℕ → ℕ
  cast_word mod1 c =
      if mod1 == 3
      then (if negative c then bit_or 0x80000000 (negate c) else c)
      else if mod1 == 2
      then (if negative c then negate c else c)
      else field (ops.of_unsigned (field c 0 31)) 0 31 + field c 31 1 * 2 ^ 31

  unfoldable pub sfpcast : ℕ → Sfpu → Sfpu
  unfolding each_lane cast_word
  sfpcast imm =
      on_lanes (vd_of imm)
        (write_checked (vd_of imm) (λ s lane. cast_word (mod1_of imm) (s.lreg (vc_of imm) lane)))

-- The bits that the discarded ones are compared with.
abbrev pub threshold : ℕ → ℕ → ℕ
threshold rnd_mode prng =
    if rnd_mode == 0 then 0x400000 else if rnd_mode == 2 then 0x7FFFFF else field prng 0 23

-- `x` without its lowest `n` bits, and one more of the rest if these are large enough.
unfoldable pub rounded : ℕ → ℕ → ℕ → ℕ
rounded n x limit =
    let discarded = x % 2 ^ n in
    if leb limit discarded then u32 (x - discarded + 2 ^ n) else x - discarded

-- Mode A; the other modes leave the word.
unfoldable pub round_word : ℕ → ℕ → ℕ → ℕ
unfolding rounded
round_word mod1 prng x =
    let exp = field x 23 8 in
    if not (leb mod1 1)
    then x
    else if exp == 0
    then 0
    else if exp == 255
    then field x 23 9 * 2 ^ 23
    else if mod1 == 0
    then rounded 13 x (prng / 2 ^ 10)
    else rounded 16 x (prng / 2 ^ 7)

-- The generator advances whatever the rounding mode.
abbrev pub stochrnd_lane : ℕ → ℕ → Sfpu → Sfpu
stochrnd_lane imm lane s =
    let prng = threshold (field imm 21 3) (s.prng_state lane) in
    let s' = advance_prng lane s in
    let x = round_word (mod1_of imm) prng (s.lreg (vc_of imm) lane) in
    if writable (vd_of imm) then write_lreg (vd_of imm) lane x s' else s'

unfoldable pub sfpstochrnd : ℕ → Sfpu → Sfpu
unfolding each_lane next_prng round_word
sfpstochrnd imm s =
    let s' = each_lane (when_enabled (stochrnd_lane imm)) lreg_lanes 0 s in
    if leb 12 (vd_of imm) then s else s'
