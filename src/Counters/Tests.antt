-- ===== src/Counters/Tests.antt =====
-- The counters' theorem at concrete instructions.
use native.Mathlib.Omega.{arith}
use rv32_emu.Base.{ℕ, ◌+◌, ◌*◌, ◌≡◌, refl, List, [], ◌∷◌, field, u32}
use rv32_emu.Cop.Tests.{core}
use rv32_emu.Counters.Restart.{zw, restart, increments, restart-increments}

-- Two increments of the packer's Z counter, and a restart of it that moves the checkpoint by 1.
abbrev moves : List ℕ
moves = 0x800080 ∷ 0x8000C0 ∷ []

restart-increments_example :
    (((restart zw (increments zw core moves 2) 0x800041 2).counters 2).value 0 2
      ≡ u32 ((core.counters 2).cr 0 2 + field 0x800041 (6 + 3 * (2 * 0 + 0)) 3))
    × (((restart zw (increments zw core moves 2) 0x800041 2).counters 2).cr 0 2
        ≡ u32 ((core.counters 2).cr 0 2 + field 0x800041 (6 + 3 * (2 * 0 + 0)) 3))
restart-increments_example =
    restart-increments zw core moves 0x800041 2 2 2 0 0 (omega arith) (omega arith) (omega arith)
      refl refl
