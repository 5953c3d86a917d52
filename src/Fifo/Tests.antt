-- ===== src/Fifo/Tests.antt =====
-- The FIFO's theorems at concrete FIFOs.
use rv32_emu.Base.{◌≡◌, refl, List, [], ◌∷◌}
use rv32_emu.Base.Queue
use rv32_emu.Base.Queue.{Op, put, get, Reply, accepted, item, empty}
use rv32_emu.Fifo.Defs.{fifo_size, init, push, pop}
use rv32_emu.Fifo.Refine.{view, init-IsValid, run, run-refines}

abbrev calls : List Op
calls = put 7 ∷ put 8 ∷ get ∷ get ∷ get ∷ []

run-calls : run init calls ≡ accepted ∷ accepted ∷ item 7 ∷ item 8 ∷ empty ∷ []
unfolding run init push pop
run-calls = refl

run-refines_example : run init calls ≡ Queue.run fifo_size (view init) calls
run-refines_example = run-refines init calls init-IsValid
