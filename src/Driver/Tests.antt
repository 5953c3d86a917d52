-- ===== src/Driver/Tests.antt =====
-- The driver on an emulator that counts its steps.
use rv32_emu.Base.{ℕ, ◌+◌, ◌≡◌, refl, true, leb, pos, some, List}
use rv32_emu.Mailbox.{Mailbox, process}
use rv32_emu.Cop.Tests.{boxes}
use rv32_emu.Driver.Defs.{Emulator, Event, co_turn, rv32_run_co}
use rv32_emu.Driver.Slices.{sliced, after, rv32_run_co-slices}

-- Halted after five steps; a yield changes nothing.
abbrev counter : Emulator ℕ
counter = record { halted = leb 5; step = λ e m. (e + 1, m); yielded = λ e m. (e, m) }

rv32_run_co-slices_example :
    (trace : List Event) × (end : ℕ × Mailbox) × (rv32_run_co counter 3 true (pos 1) 5 0 boxes
      ≡ some (trace, end))
    × (leb 5 end.0 ≡ true)
    × (sliced 3 0 trace ≡ true)
unfolding after co_turn process
rv32_run_co-slices_example = rv32_run_co-slices counter 3 true (pos 1) 5 0 boxes refl
