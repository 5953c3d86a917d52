-- ===== src/Sfpu/Integers.antt =====
-- The instructions on the bit patterns of the enabled lanes. Each is a function of the 24 bits of
-- the instruction and the vector unit; the C functions return true.
use rv32_emu.Base.{
  ℕ, ◌+◌, ◌-◌, ◌*◌, ◌/◌, ◌%◌, ◌^◌, Bool, not, ◌&&◌, ◌==◌, ltb, leb, if◌then◌else◌, field, bit, u32,
  bit_and, bit_or, bit_xor,
}
use rv32_emu.Core.{Sfpu}
use rv32_emu.Sfpu.Lanes.{
  lreg_lanes, when_enabled, write_value, write_checked, set_flag, imm12_of, vc_of, vd_of, mod1_of,
  on_lanes, each_lane,
}

-- `(int32_t)v < 0`, `~v` and `-v` on 32-bit words.
abbrev pub negative : ℕ → Bool
negative v = leb (2 ^ 31) v

abbrev pub complement : ℕ → ℕ
complement v = 2 ^ 32 - 1 - v

abbrev pub negate : ℕ → ℕ
negate v = u32 (2 ^ 32 - v)

-- The 16-bit immediate of SFPLOADI in its format, over the word that the lane holds.
unfoldable pub loadi_value : ℕ → ℕ → ℕ → ℕ
loadi_value mod0 imm16 old =
    if mod0 == 2
    then imm16
    else if mod0 == 4
    then (if bit imm16 15 then imm16 + 0xFFFF0000 else imm16)
    else if mod0 == 8
    then bit_or (imm16 * 2 ^ 16) (field old 0 16)
    else if mod0 == 10
    then bit_or (old / 2 ^ 16 * 2 ^ 16) imm16
    else if mod0 == 1
    then bit_or (bit_or (field imm16 15 1 * 2 ^ 31) ((field imm16 10 5 + 112) * 2 ^ 23))
        (field imm16 0 10 * 2 ^ 13)
    else imm16 * 2 ^ 16

abbrev pub loadi_result : ℕ → Sfpu → ℕ → ℕ
loadi_result imm t lane =
    loadi_value (field imm 16 4) (field imm 0 16) (t.lreg (field imm 20 4) lane)

unfoldable pub sfploadi : ℕ → Sfpu → Sfpu
unfolding each_lane loadi_value
sfploadi imm s =
    let vd = field imm 20 4 in
    let s' = each_lane (when_enabled (write_value vd (loadi_result imm))) lreg_lanes 0 s in
    if leb 8 vd then s else s'

-- The exponent, less the bias of 127 or not, and the flags from its sign.
abbrev pub exexp_flags : ℕ → ℕ → Bool → ℕ → Sfpu → Sfpu
exexp_flags vd mod1 below lane t =
    let signed = if bit mod1 1 then set_flag lane below t else t in
    if leb 8 vd
    then t
    else if bit mod1 3
    then set_flag lane (not (signed.lane_flags lane)) signed
    else signed

-- The exponent of VC is below the bias, and the bias is taken off.
abbrev pub below_bias : ℕ → Sfpu → ℕ → Bool
below_bias imm t lane = not (bit (mod1_of imm) 0) && ltb (field (t.lreg (vc_of imm) lane) 23 8) 127

abbrev pub exexp_value : ℕ → Sfpu → ℕ → ℕ
exexp_value imm t lane =
    let exp = field (t.lreg (vc_of imm) lane) 23 8 in
    if bit (mod1_of imm) 0 then exp else u32 (exp + 2 ^ 32 - 127)

abbrev pub exexp_lane : ℕ → ℕ → Sfpu → Sfpu
exexp_lane imm lane t =
    exexp_flags (vd_of imm) (mod1_of imm) (below_bias imm t lane) lane
      (write_checked (vd_of imm) (exexp_value imm) lane t)

unfoldable pub sfpexexp : ℕ → Sfpu → Sfpu
unfolding each_lane
sfpexexp imm = on_lanes (vd_of imm) (exexp_lane imm)

abbrev pub exman_value : ℕ → Sfpu → ℕ → ℕ
exman_value imm t lane =
    let mantissa = field (t.lreg (vc_of imm) lane) 0 23 in
    if bit (mod1_of imm) 0 then mantissa else bit_or mantissa (2 ^ 23)

unfoldable pub sfpexman : ℕ → Sfpu → Sfpu
unfolding each_lane
sfpexman imm = on_lanes (vd_of imm) (write_checked (vd_of imm) (exman_value imm))

-- The sum or difference, and the flags from its sign.
unfoldable pub iadd_value : ℕ → ℕ → ℕ → ℕ → ℕ
iadd_value mod1 imm12 c b =
    if bit mod1 0
    then u32 (c + (if bit imm12 11 then bit_or imm12 0xFFFFF000 else imm12))
    else if bit mod1 1
    then u32 (c + 2 ^ 32 - b)
    else u32 (c + b)

abbrev pub iadd_flags : ℕ → ℕ → ℕ → ℕ → Sfpu → Sfpu
iadd_flags vd mod1 result lane t =
    let signed = if bit mod1 2 then t else set_flag lane (negative result) t in
    if leb 8 vd
    then t
    else if bit mod1 3
    then set_flag lane (not (signed.lane_flags lane)) signed
    else signed

abbrev pub iadd_result : ℕ → Sfpu → ℕ → ℕ
iadd_result imm t lane =
    iadd_value (mod1_of imm) (imm12_of imm) (t.lreg (vc_of imm) lane) (t.lreg (vd_of imm) lane)

abbrev pub iadd_lane : ℕ → ℕ → Sfpu → Sfpu
iadd_lane imm lane t =
    iadd_flags (vd_of imm) (mod1_of imm) (iadd_result imm t lane) lane
      (write_value (vd_of imm) (iadd_result imm) lane t)

unfoldable pub sfpiadd : ℕ → Sfpu → Sfpu
unfolding each_lane iadd_value
sfpiadd imm = on_lanes (vd_of imm) (iadd_lane imm)

-- A shift of `val` by a signed amount, to the left if it is not negative.
unfoldable pub shift_value : Bool → Bool → ℕ → ℕ → ℕ
shift_value arithmetic right amount val =
    if right
    then if arithmetic && negative val
      then complement (complement val / 2 ^ amount)
      else val / 2 ^ amount
    else u32 (val * 2 ^ amount)

abbrev pub shft_value : ℕ → Sfpu → ℕ → ℕ
shft_value imm t lane =
    let mod1 = mod1_of imm in
    let imm12 = imm12_of imm in
    let c = t.lreg (vc_of imm) lane in
    let val = if bit mod1 0 && bit mod1 2 then c else t.lreg (vd_of imm) lane in
    let right = if bit mod1 0 then bit imm12 11 else negative c in
    let amount =
      if bit mod1 0
      then (if bit imm12 11 then (2 ^ 12 - imm12) % 32 else imm12 % 32)
      else if negative c
      then (2 ^ 32 - c) % 32
      else c % 32 in
    shift_value (bit mod1 1) right amount val

unfoldable pub sfpshft : ℕ → Sfpu → Sfpu
unfolding each_lane shift_value
sfpshft imm = on_lanes (vd_of imm) (write_checked (vd_of imm) (shft_value imm))

abbrev pub abs_value : ℕ → Sfpu → ℕ → ℕ
abs_value imm t lane =
    let x = t.lreg (vc_of imm) lane in
    if negative x
    then if bit (mod1_of imm) 0
      then (if leb x 0xFF800000 then bit_and x 0x7FFFFFFF else x)
      else negate x
    else x

unfoldable pub sfpabs : ℕ → Sfpu → Sfpu
unfolding each_lane
sfpabs imm = on_lanes (vd_of imm) (write_value (vd_of imm) (abs_value imm))

-- The second operand of SFPAND and SFPOR.
abbrev pub source : ℕ → ℕ
source imm = if bit (mod1_of imm) 0 then field imm 12 4 else vd_of imm

abbrev pub op_value : (ℕ → ℕ → ℕ) → ℕ → ℕ → Sfpu → ℕ → ℕ
op_value op src imm t lane = op (t.lreg src lane) (t.lreg (vc_of imm) lane)

abbrev pub bitwise_op : (ℕ → ℕ → ℕ) → ℕ → ℕ → Sfpu → Sfpu
bitwise_op op src imm = on_lanes (vd_of imm) (write_value (vd_of imm) (op_value op src imm))

unfoldable pub sfpand : ℕ → Sfpu → Sfpu
unfolding each_lane
sfpand imm = bitwise_op bit_and (source imm) imm

unfoldable pub sfpor : ℕ → Sfpu → Sfpu
unfolding each_lane
sfpor imm = bitwise_op bit_or (source imm) imm

unfoldable pub sfpxor : ℕ → Sfpu → Sfpu
unfolding each_lane
sfpxor imm = bitwise_op bit_xor (vd_of imm) imm

abbrev pub not_value : ℕ → Sfpu → ℕ → ℕ
not_value imm t lane = complement (t.lreg (vc_of imm) lane)

unfoldable pub sfpnot : ℕ → Sfpu → Sfpu
unfolding each_lane
sfpnot imm = on_lanes (vd_of imm) (write_value (vd_of imm) (not_value imm))

-- Sign and mantissa of VC with an exponent from the instruction or from VD.
abbrev pub setexp_value : ℕ → Sfpu → ℕ → ℕ
setexp_value imm t lane =
    let c = t.lreg (vc_of imm) lane in
    let d = t.lreg (vd_of imm) lane in
    let exp =
      if bit (mod1_of imm) 0
      then field (imm12_of imm) 0 8
      else if bit (mod1_of imm) 1
      then field d 23 8
      else field d 0 8 in
    bit_or (bit_or (bit_and c 0x80000000) (exp * 2 ^ 23)) (field c 0 23)

unfoldable pub sfpsetexp : ℕ → Sfpu → Sfpu
unfolding each_lane
sfpsetexp imm = on_lanes (vd_of imm) (write_checked (vd_of imm) (setexp_value imm))

-- Exponent and mantissa of VC with a sign from the instruction or from VD.
abbrev pub setsgn_value : ℕ → Sfpu → ℕ → ℕ
setsgn_value imm t lane =
    let sign =
      if bit (mod1_of imm) 0 then field (imm12_of imm) 0 1 else t.lreg (vd_of imm) lane / 2 ^ 31 in
    bit_or (u32 (sign * 2 ^ 31)) (field (t.lreg (vc_of imm) lane) 0 31)

unfoldable pub sfpsetsgn : ℕ → Sfpu → Sfpu
unfolding each_lane
sfpsetsgn imm = on_lanes (vd_of imm) (write_value (vd_of imm) (setsgn_value imm))
