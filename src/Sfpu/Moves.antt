-- ===== src/Sfpu/Moves.antt =====
-- The moves: within the vector unit, SFPMOV with its random numbers, SFPSWAP, SFPCONFIG and
-- SFPTRANSP; and SFPLOAD and SFPSTORE, between it and Dest.
use rv32_emu.Base.{
  ℕ, zero, suc, ◌+◌, ◌-◌, ◌*◌, ◌/◌, ◌%◌, ◌^◌, Bool, true, not, ◌&&◌, ◌||◌, ◌==◌, ltb, leb,
  if◌then◌else◌, update, field, bit, u32, bit_or, bit_xor,
}
use rv32_emu.Core.{Core, Sfpu}
use rv32_emu.Counters.{apply_addr_mod}
use rv32_emu.Sfpu.Lanes.{
  lreg_lanes, each_lane, lane_enabled, write_lreg, vc_of, vd_of, mod1_of, writable, on_lanes,
}

-- The parity of the four tapped bits.
abbrev pub taps : ℕ → ℕ
taps state = (field state 31 1 + field state 21 1 + field state 1 1 + field state 0 1) % 2

-- The next state of a lane's generator; the number is the old state.
unfoldable pub next_prng : ℕ → ℕ
next_prng state = bit_or ((1 - taps state) * 2 ^ 31) (state / 2)

abbrev pub advance_prng : ℕ → Sfpu → Sfpu
advance_prng lane s = record s {
  prng_state = update s.prng_state lane (next_prng (s.prng_state lane));
}

abbrev pub mov_lane : ℕ → ℕ → Sfpu → Sfpu
mov_lane imm lane s =
    let mod1 = mod1_of imm in
    let vc = vc_of imm in
    let vd = vd_of imm in
    let write = λ (v : ℕ) (t : Sfpu). if writable vd then write_lreg vd lane v t else t in
    if leb 12 vd || not (lane_enabled s lane) && not (mod1 == 2)
    then s
    else if bit mod1 3
    then (if vc == 9 then write (s.prng_state lane) (advance_prng lane s) else write 0 s)
    else if bit mod1 0
    then write (bit_xor (s.lreg vc lane) 0x80000000) s
    else write (s.lreg vc lane) s

unfoldable pub sfpmov : ℕ → Sfpu → Sfpu
unfolding each_lane next_prng
sfpmov imm = each_lane (mov_lane imm) lreg_lanes 0

-- `greater` is the comparison of two floats, given by their bits.
module _ (greater : ℕ → ℕ → Bool) where
  abbrev pub swap_lane : ℕ → ℕ → Sfpu → Sfpu
  swap_lane imm lane s =
      let vc = vc_of imm in
      let vd = vd_of imm in
      let d = s.lreg vd lane in
      let c = s.lreg vc lane in
      let swapped =
        let s' = if writable vd then write_lreg vd lane c s else s in
        if writable vc then write_lreg vc lane d s' else s' in
      if mod1_of imm == 0
      then swapped
      else if mod1_of imm == 1
      then (if greater d c then swapped else s)
      else s

  unfoldable pub sfpswap : ℕ → Sfpu → Sfpu
  unfolding each_lane
  sfpswap imm = on_lanes (vd_of imm) (swap_lane imm)

-- All lanes, enabled or not. For VD 15 and below 11 nothing is written.
unfoldable pub sfpconfig : ℕ → Sfpu → Sfpu
unfolding each_lane
sfpconfig imm s =
    let vd = vd_of imm in
    let s' =
      each_lane
        (λ lane t.
          write_lreg vd lane
            (if bit (mod1_of imm) 0 then field imm 8 16 * 2 ^ 16 else t.lreg 0 (lane % 8)) t)
        lreg_lanes 0 s in
    if leb 11 vd && leb vd 14 then s' else s

-- One exchange of SFPTRANSP: element `(i, j)` with `(j, i)` of four registers, in one column.
abbrev pub exchange : ℕ → ℕ → ℕ → ℕ → Sfpu → Sfpu
exchange base col i j s =
    let lane_ij = j * 8 + col in
    let lane_ji = i * 8 + col in
    let ij = s.lreg (base + i) lane_ij in
    let ji = s.lreg (base + j) lane_ji in
    let s' = if lane_enabled s lane_ij then write_lreg (base + i) lane_ij ji s else s in
    if lane_enabled s' lane_ji then write_lreg (base + j) lane_ji ij s' else s'

-- `for (i = 0; i < 4; i++) for (j = 0; j < i; j++) ...`
abbrev pub transpose_column : ℕ → ℕ → Sfpu → Sfpu
transpose_column base col s = exchange base col 3 2 (
    exchange base col 3 1 (
      exchange base col 3 0
        (exchange base col 2 1 (exchange base col 2 0 (exchange base col 1 0 s)))))

unfoldable pub transpose_columns : ℕ → ℕ → ℕ → Sfpu → Sfpu
transpose_columns base zero col s = s
transpose_columns base (suc n) col s =
    transpose_columns base n (suc col) (transpose_column base col s)

unfoldable pub sfptransp : ℕ → Sfpu → Sfpu
unfolding transpose_columns
sfptransp imm s =
    let s' = transpose_columns 4 8 0 (transpose_columns 0 8 0 s) in
    if leb 12 (vd_of imm) then s else s'

-- The row and column of Dest that a lane of SFPLOAD and SFPSTORE goes to.
abbrev pub dest_row : ℕ → ℕ → ℕ
dest_row addr lane = u32 (addr / 4 * 4 + lane / 8)

abbrev pub dest_col : ℕ → ℕ → ℕ
dest_col addr lane = lane % 8 * 2 + field addr 1 1

abbrev pub in_dest : ℕ → ℕ → Bool
in_dest addr lane = ltb (dest_row addr lane) 1024 && ltb (dest_col addr lane) 16

-- `for (lane = from; lane < from + n; lane++)` on the core.
unfoldable pub each_core_lane : {D : Type 0} → (ℕ → Core D → Core D) → ℕ → ℕ → Core D → Core D
each_core_lane body zero from core = core
each_core_lane body (suc n) from core = each_core_lane body n (suc from) (body from core)

module _ {D : Type 0} where
  abbrev pub dest_addr : Core D → ℕ → ℕ → ℕ
  dest_addr core imm tid = u32 (field imm 0 13 + core.thd_reg tid 1 + (core.rwc tid).dest)

  unfoldable pub sfpload : Core D → ℕ → ℕ → Core D × Bool
  unfolding each_core_lane apply_addr_mod
  sfpload core imm tid =
      let lreg_ind = field imm 20 4 in
      let addr = dest_addr core imm tid in
      let loaded =
        each_core_lane
          (λ lane c.
            if in_dest addr lane
            then record c {
              sfpu =
                  write_lreg lreg_ind lane (c.dest (dest_row addr lane) (dest_col addr lane))
                    c.sfpu;
            }
            else c)
          lreg_lanes 0 core in
      (apply_addr_mod (if leb 8 lreg_ind then core else loaded) (field imm 13 3) tid, true)

  unfoldable pub sfpstore : Core D → ℕ → ℕ → Core D × Bool
  unfolding each_core_lane apply_addr_mod
  sfpstore core imm tid =
      let lreg_ind = field imm 20 4 in
      let addr = dest_addr core imm tid in
      let row = dest_row addr in
      let col = dest_col addr in
      let stored =
        each_core_lane
          (λ lane c.
            if not (lane_enabled c.sfpu lane) && not (field imm 16 4 == 10)
            then c
            else if in_dest addr lane
            then record c {
              dest =
                  update c.dest (row lane)
                    (update (c.dest (row lane)) (col lane) (c.sfpu.lreg lreg_ind lane));
            }
            else c)
          lreg_lanes 0 core in
      (apply_addr_mod stored (field imm 13 3) tid, true)
