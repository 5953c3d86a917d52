-- ===== src/Sfpu/Curves.antt =====
-- The piecewise functions of the vector unit: the lines of SFPLUTFP32, and the tables of SFPARECIP.
use rv32_emu.Base.{
  ℕ, zero, suc, ◌+◌, ◌-◌, ◌*◌, ◌/◌, ◌%◌, ◌^◌, Bool, ◌==◌, ltb, leb, if◌then◌else◌, field, bit, u32,
  bit_or, List, [], ◌∷◌,
}
use rv32_emu.Core.{Sfpu}
use rv32_emu.Floats.{FloatOps}
use rv32_emu.Sfpu.Lanes.{
  lreg_lanes, each_lane, when_enabled, write_value, vc_of, vd_of, mod1_of, on_lanes,
}
use rv32_emu.Sfpu.Integers.{negative}
use rv32_emu.Sfpu.Arithmetic.{write_result}
use rv32_emu.Sfpu.Tables.{
  recip_table, exp_part0, exp_part1, exp_part2, exp_part3, exp_part4, exp_part5, exp_part6,
}

-- A table entry of 16 bits as a float: no infinities, no subnormal numbers.
unfoldable pub lut16_to_fp32 : ℕ → ℕ
lut16_to_fp32 x =
    let exp = field x 10 5 in
    bit_or (bit_or (field x 15 1 * 2 ^ 31) ((if exp == 31 then 0 else 112 + exp) * 2 ^ 23))
      (field x 0 10 * 2 ^ 13)

module _ (ops : FloatOps) where
  abbrev below : ℕ → ℕ → Bool
  below b limit = ops.greater limit b

  -- The piece of three, and the half of the piece of six, that hold `b`: 0x3F000000 is 0.5,
  -- 0x3F800000 is 1, 0x3FC00000 is 1.5, 0x40000000 is 2, 0x40400000 is 3 and 0x40800000 is 4.
  abbrev pub piece : ℕ → ℕ
  piece b = if below b 0x3F800000 then 0 else if below b 0x40000000 then 1 else 2

  abbrev pub half : ℕ → ℕ → ℕ
  half cut b =
      if below b 0x3F000000
      then 0
      else if below b 0x3F800000
      then 16
      else if below b 0x3FC00000
      then 0
      else if below b 0x40000000
      then 16
      else if below b cut
      then 0
      else 16

  abbrev pub lut_lane : ℕ → ℕ → Sfpu → Sfpu
  lut_lane imm lane s =
      let l3 = s.lreg 3 lane in
      let b = ops.fabs l3 in
      let i = piece b in
      let j = half (if bit imm 0 then 0x40800000 else 0x40400000) b in
      let lower = s.lreg i lane in
      let upper = s.lreg (4 + i) lane in
      let a =
        if bit imm 1
        then (if bit imm 3
            then lut16_to_fp32 (field lower 16 16)
            else lut16_to_fp32 (field lower j 16))
        else lower in
      let c =
        if bit imm 1
        then (if bit imm 3
            then lut16_to_fp32 (field lower 0 16)
            else lut16_to_fp32 (field upper j 16))
        else upper in
      let d = ops.add (ops.mul a b) c in
      write_result imm lane (if bit imm 2 then ops.copysign d l3 else d) s

  unfoldable pub sfplutfp32 : ℕ → Sfpu → Sfpu
  unfolding each_lane lut16_to_fp32
  sfplutfp32 imm s =
      let s' = each_lane (when_enabled (lut_lane imm)) lreg_lanes 0 s in
      if leb 12 (vd_of imm) then s else s'

-- `table[i]`, and 0 past its end.
unfoldable pub entry : List ℕ → ℕ → ℕ
entry [] i = 0
entry (v ∷ vs) zero = v
entry (v ∷ vs) (suc i) = entry vs i

abbrev pub exp_part : ℕ → List ℕ
exp_part k =
    if k == 0
    then exp_part0
    else if k == 1
    then exp_part1
    else if k == 2
    then exp_part2
    else if k == 3
    then exp_part3
    else if k == 4
    then exp_part4
    else if k == 5
    then exp_part5
    else exp_part6

unfoldable pub sfparecip_approx_recip : ℕ → ℕ
unfolding entry
sfparecip_approx_recip x =
    if ltb x 0x00800000
    then 0x7F800000
    else if ltb x 0x7E800000
    then bit_or ((253 - x / 2 ^ 23) * 2 ^ 23) (entry recip_table (field x 16 7) * 2 ^ 16)
    else 0

unfoldable pub sfparecip_approx_exp : ℕ → ℕ
unfolding entry
sfparecip_approx_exp x =
    let index = x / 2 ^ 16 - 0x3C80 in
    let value = entry (exp_part (index / 128)) (index % 128) * 2 ^ 16 in
    if ltb x 0x00800000
    then 0x3F800000
    else if ltb x 0x3C800000
    then bit_or 0x3F810000 (field x 0 16)
    else if ltb x 0x3F320000
    then bit_or (bit_or 0x3F800000 value) (field x 0 16)
    else if ltb x 0x40000000
    then bit_or (bit_or 0x40000000 value) (field x 0 16)
    else bit_or 0x40800000 (field x 0 16)

unfoldable pub arecip_word : ℕ → Bool → ℕ → ℕ
unfolding sfparecip_approx_recip sfparecip_approx_exp
arecip_word mod1 vb_negative x =
    let sign = field x 31 1 * 2 ^ 31 in
    if mod1 == 0
    then u32 (sign + sfparecip_approx_recip (x - sign))
    else if mod1 == 1
    then (if vb_negative then sfparecip_approx_recip (x - sign) else x)
    else u32 (sign + sfparecip_approx_exp (x - sign))

unfoldable pub sfparecip : ℕ → Sfpu → Sfpu
unfolding each_lane arecip_word
sfparecip imm = on_lanes (vd_of imm) (
    write_value (vd_of imm) (λ s lane.
      arecip_word (mod1_of imm) (negative (s.lreg (field imm 16 4) lane))
        (s.lreg (vc_of imm) lane)))
