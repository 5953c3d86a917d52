-- ===== src/Mop/Tests.antt =====
-- The MOP expander's theorems at concrete registers.
use native.Mathlib.Omega.{arith}
use rv32_emu.Base.{ℕ, ◌+◌, ◌≡◌, refl, true, [], ◌∷◌, ◌==◌, if◌then◌else◌}
use rv32_emu.Mop.Defs.{expand, outer_count, mop_is_nop}
use rv32_emu.Mop.Collect.{collect}
use rv32_emu.Mop.Loops.{outer_loop, loop_body, singles, collect-expand}
use rv32_emu.Mop.Template0.{groups, group, mask, collect-expand_t0}

-- Two outer iterations of two inner ones; the start and the first end are NOPs.
abbrev loop_cfg : ℕ → ℕ
loop_cfg i =
    if i == 0
    then 2
    else if i == 1
    then 2
    else if i == 4
    then 0x37000000
    else if i == 5
    then 0x26000005
    else if i == 7
    then 0x26000007
    else if i == 8
    then 0x26000008
    else 0x02000000

abbrev loop_param : ℕ
loop_param = 0x800000

loop_words :
    outer_loop loop_cfg (outer_count loop_cfg)
    ≡ 0x26000005 ∷ 0x26000008 ∷ 0x37000000 ∷ 0x26000005 ∷ 0x26000007 ∷ 0x37000000 ∷ []
unfolding outer_loop loop_body singles mop_is_nop
loop_words = refl

collect-expand_example :
    collect 7 loop_cfg (expand loop_cfg 0 loop_param)
    ≡ (outer_loop loop_cfg (outer_count loop_cfg), true)
unfolding outer_loop loop_body singles mop_is_nop
collect-expand_example = collect-expand loop_cfg 0 loop_param refl 7 (omega arith)

-- All of a group's instructions, then a skipped group.
abbrev mask_cfg : ℕ → ℕ
mask_cfg i = if i == 1 then 3 else 0x42000000 + i

abbrev mask_param : ℕ
mask_param = 0x010002

collect-expand_t0_example :
    collect 8 mask_cfg (expand mask_cfg 0 mask_param)
    ≡ (groups mask_cfg 2 (mask mask_cfg 0 mask_param refl), true)
unfolding groups group
collect-expand_t0_example = collect-expand_t0 mask_cfg 0 mask_param refl 8 (omega arith)
