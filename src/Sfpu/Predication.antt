-- ===== src/Sfpu/Predication.antt =====
-- The predication of the lanes: SFPSETCC, SFPENCC, SFPCOMPC, and the stack of SFPPUSHC and SFPPOPC.
use rv32_emu.Base.{
  ℕ, ◌+◌, ◌-◌, Bool, true, false, not, ◌&&◌, ◌||◌, ◌==◌, ltb, leb, if◌then◌else◌, update, bit,
}
use rv32_emu.Core.{Sfpu}
use rv32_emu.Sfpu.Lanes.{
  lreg_lanes, each_lane, lane_enabled, set_flag, set_use, imm12_of, vc_of, vd_of, mod1_of,
}
use rv32_emu.Sfpu.Integers.{negative}

abbrev pub flag_stack_depth : ℕ
flag_stack_depth = 8

-- A loop whose body is skipped for the registers 12 to 15.
abbrev pub unless_high : ℕ → (ℕ → Sfpu → Sfpu) → Sfpu → Sfpu
unless_high vd body = each_lane (λ lane s. if leb 12 vd then s else body lane s) lreg_lanes 0

-- The condition of SFPSETCC on a register; a mode that names none leaves the flag.
unfoldable pub condition : ℕ → ℕ → Bool → Bool
condition mod1 c old =
    if mod1 == 0
    then negative c
    else if mod1 == 2
    then not (c == 0)
    else if mod1 == 4
    then not (negative c)
    else if mod1 == 6
    then c == 0
    else old

abbrev pub setcc_lane : ℕ → ℕ → Sfpu → Sfpu
setcc_lane imm lane s =
    let mod1 = mod1_of imm in
    if not (lane_enabled s lane)
    then s
    else if not (s.use_lane_flags lane)
    then set_flag lane false s
    else if bit mod1 3
    then set_flag lane false s
    else if bit mod1 0
    then set_flag lane (bit (imm12_of imm) 0) s
    else set_flag lane (condition mod1 (s.lreg (vc_of imm) lane) (s.lane_flags lane)) s

unfoldable pub sfpsetcc : ℕ → Sfpu → Sfpu
unfolding each_lane condition
sfpsetcc imm = unless_high (vd_of imm) (setcc_lane imm)

abbrev pub encc_lane : ℕ → ℕ → Sfpu → Sfpu
encc_lane imm lane s =
    let mod1 = mod1_of imm in
    let used =
      if bit mod1 1
      then set_use lane (bit (imm12_of imm) 0) s
      else if bit mod1 0
      then set_use lane (not (s.use_lane_flags lane)) s
      else s in
    set_flag lane (if bit mod1 3 then bit (imm12_of imm) 1 else true) used

unfoldable pub sfpencc : ℕ → Sfpu → Sfpu
unfolding each_lane
sfpencc imm = unless_high (vd_of imm) (encc_lane imm)

-- The entry on top of the stack, or what stands for it on an empty one.
abbrev pub top_flags : Bool → Sfpu → ℕ → Bool
top_flags empty s lane = if ltb 0 s.depth then s.stack_lane_flags (s.depth - 1) lane else empty

abbrev pub top_use : Bool → Sfpu → ℕ → Bool
top_use empty s lane = if ltb 0 s.depth then s.stack_use_lane_flags (s.depth - 1) lane else empty

abbrev pub compc_lane : ℕ → Sfpu → Sfpu
compc_lane lane s =
    set_flag lane
      (if top_use true s lane && s.use_lane_flags lane
        then top_flags true s lane && not (s.lane_flags lane)
        else false)
      s

unfoldable pub sfpcompc : ℕ → Sfpu → Sfpu
unfolding each_lane
sfpcompc imm = unless_high (vd_of imm) compc_lane

-- `BooleanOp` of the two stack instructions, modes 1 to 12.
unfoldable pub boolean_op : ℕ → Bool → Bool → Bool
boolean_op mod1 a b =
    if mod1 == 1
    then b
    else if mod1 == 2
    then not b
    else if mod1 == 3
    then a && b
    else if mod1 == 4
    then a || b
    else if mod1 == 5
    then a && not b
    else if mod1 == 6
    then a || not b
    else if mod1 == 7
    then not a && b
    else if mod1 == 8
    then not a || b
    else if mod1 == 9
    then not a && not b
    else if mod1 == 10
    then not a || not b
    else if mod1 == 11
    then (if a then not b else b)
    else (if a then b else not b)

-- The entry on top of a stack that is not empty.
abbrev pub set_top : ℕ → Bool → Bool → Sfpu → Sfpu
set_top lane used flags s =
    let top = s.depth - 1 in
    record s {
      stack_use_lane_flags =
          update s.stack_use_lane_flags top (update (s.stack_use_lane_flags top) lane used);
      stack_lane_flags = update s.stack_lane_flags top (update (s.stack_lane_flags top) lane flags);
    }

abbrev pub pushc_lane : ℕ → ℕ → Sfpu → Sfpu
pushc_lane mod1 lane s =
    let used = s.use_lane_flags lane in
    if s.depth == 0
    then s
    else if mod1 == 0
    then set_top lane used (s.lane_flags lane) s
    else if leb mod1 12
    then set_top lane used (boolean_op mod1 (top_flags false s lane) (s.lane_flags lane)) s
    else if mod1 == 13
    then set_top lane used (not (s.lane_flags lane)) (set_flag lane (not (s.lane_flags lane)) s)
    else if mod1 == 14
    then set_top lane true true s
    else set_top lane true false s

-- A plain push makes room for one more entry, if there is any.
abbrev pub grow : ℕ → ℕ → Sfpu → Sfpu
grow mod1 vd s =
    if mod1 == 0 && (ltb vd 12 && ltb s.depth flag_stack_depth)
    then record s { depth = s.depth + 1 }
    else s

unfoldable pub sfppushc : ℕ → Sfpu → Sfpu
unfolding each_lane boolean_op
sfppushc imm s =
    unless_high (vd_of imm) (pushc_lane (mod1_of imm)) (grow (mod1_of imm) (vd_of imm) s)

abbrev pub popc_lane : ℕ → ℕ → Sfpu → Sfpu
popc_lane mod1 lane s =
    let used = top_use false s lane in
    let flags = top_flags false s lane in
    if mod1 == 0
    then set_flag lane flags (set_use lane used s)
    else if leb mod1 12
    then set_flag lane (boolean_op mod1 (s.lane_flags lane) flags) (set_use lane used s)
    else if mod1 == 13
    then set_flag lane (not (s.lane_flags lane)) s
    else if mod1 == 14
    then set_flag lane true (set_use lane true s)
    else set_flag lane false (set_use lane true s)

-- A plain pop drops an entry, for every VD.
abbrev pub shrink : ℕ → Sfpu → Sfpu
shrink mod1 s = if mod1 == 0 && ltb 0 s.depth then record s { depth = s.depth - 1 } else s

unfoldable pub sfppopc : ℕ → Sfpu → Sfpu
unfolding each_lane boolean_op
sfppopc imm s = shrink (mod1_of imm) (unless_high (vd_of imm) (popc_lane (mod1_of imm)) s)
