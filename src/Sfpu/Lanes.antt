-- ===== src/Sfpu/Lanes.antt =====
-- The loop over the 32 lanes, the test whether a lane takes part, and the fields that most
-- instructions of the vector unit have.
use rv32_emu.Base.{
  ℕ, zero, suc, Bool, true, not, ◌&&◌, ◌||◌, ◌==◌, leb, if◌then◌else◌, update, field,
}
use rv32_emu.Core.{Core, Sfpu}

abbrev pub lreg_lanes : ℕ
lreg_lanes = 32

-- `for (lane = from; lane < from + n; lane++) ...`
unfoldable pub each_lane : (ℕ → Sfpu → Sfpu) → ℕ → ℕ → Sfpu → Sfpu
each_lane body zero from s = s
each_lane body (suc n) from s = each_lane body n (suc from) (body from s)

abbrev pub lane_enabled : Sfpu → ℕ → Bool
lane_enabled s lane = not (s.use_lane_flags lane) || s.lane_flags lane

-- `if (use_lane_flags[lane] && !lane_flags[lane]) continue;`
abbrev pub when_enabled : (ℕ → Sfpu → Sfpu) → ℕ → Sfpu → Sfpu
when_enabled body lane s =
    if s.use_lane_flags lane && not (s.lane_flags lane) then s else body lane s

abbrev pub write_lreg : ℕ → ℕ → ℕ → Sfpu → Sfpu
write_lreg r lane v s = record s { lreg = update s.lreg r (update (s.lreg r) lane v) }

abbrev pub set_flag : ℕ → Bool → Sfpu → Sfpu
set_flag lane b s = record s { lane_flags = update s.lane_flags lane b }

abbrev pub set_use : ℕ → Bool → Sfpu → Sfpu
set_use lane b s = record s { use_lane_flags = update s.use_lane_flags lane b }

-- The fields `Imm12`, `VC`, `VD` and `Mod1`.
abbrev pub imm12_of : ℕ → ℕ
imm12_of imm = field imm 12 12

abbrev pub vc_of : ℕ → ℕ
vc_of imm = field imm 8 4

abbrev pub vd_of : ℕ → ℕ
vd_of imm = field imm 4 4

abbrev pub mod1_of : ℕ → ℕ
mod1_of imm = field imm 0 4

-- `if (vd >= 8 && vd != 16) return true;`
abbrev pub read_only : ℕ → Bool
read_only vd = leb 8 vd && not (vd == 16)

-- A register may be written through `vd < 8 || vd == 16`.
abbrev pub writable : ℕ → Bool
writable r = not (leb 8 r) || r == 16

-- An instruction that works on the enabled lanes and returns early for a read-only register.
abbrev pub on_lanes : ℕ → (ℕ → Sfpu → Sfpu) → Sfpu → Sfpu
on_lanes vd body s =
    let s' = each_lane (when_enabled body) lreg_lanes 0 s in if read_only vd then s else s'

-- A lane's value written to its own register; the second where the code asks again whether the
-- register may be written.
abbrev pub write_value : ℕ → (Sfpu → ℕ → ℕ) → ℕ → Sfpu → Sfpu
write_value r value lane s = write_lreg r lane (value s lane) s

abbrev pub write_checked : ℕ → (Sfpu → ℕ → ℕ) → ℕ → Sfpu → Sfpu
write_checked r value lane s = if writable r then write_value r value lane s else s

-- A handler of the vector unit alone, as a handler of the core.
abbrev pub on_sfpu : {D : Type 0} → (ℕ → Sfpu → Sfpu) → Core D → ℕ → ℕ → Core D × Bool
on_sfpu f core imm tid = (record core { sfpu = f imm core.sfpu }, true)
