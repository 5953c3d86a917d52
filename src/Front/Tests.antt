-- ===== src/Front/Tests.antt =====
-- The front end's theorems on a coprocessor with a few instructions in its FIFOs.
use native.Mathlib.Omega.{arith}
use rv32_emu.Base.{
  ℕ, ◌+◌, ◌*◌, ◌^◌, ◌-◌, ◌/◌, ◌<◌, ◌≡◌, ◌≢◌, refl, some, true, Bool, pos, negsuc, zero,
}
use rv32_emu.Fifo.{fifo_size}
use rv32_emu.Cop.{Cop, thread_index}
use rv32_emu.Cop.Tests.{cop, completes, two_insns-IsValid}
use rv32_emu.Insn.{ttsempost, ttsemget}
use rv32_emu.Config.{ttstorereg}
use rv32_emu.Front.Defs.{handled, target_thread, in_mop_cfg, is_per_core_addr}
use rv32_emu.Front.Routes.{mmio_read, mmio_write}
use rv32_emu.Front.Buffers.{Pushed, target_thread-index, mmio_write-Pushed}
use rv32_emu.Front.Registers.{mmio_read-mmio_write, semaphore_writes}
use rv32_emu.Front.Streams.{store_imm, mmio_write-ttstorereg}

target1 : target_thread (negsuc zero) 0xFFE50000 ≡ some 1
unfolding target_thread
target1 = refl

abbrev thread1 : thread_index (pos 1) ≡ some 1
thread1 = target_thread-index (negsuc zero) 0xFFE50000 1 target1

-- BRISC pushes a NOP to thread 1.
mmio_write-Pushed_example :
    Pushed completes
      (pos 1)
      1
      thread1
      0x02000000
      cop
      (mmio_write completes (fifo_size + 2) cop (negsuc zero) 0xFFE50000 0x02000000)
mmio_write-Pushed_example =
    mmio_write-Pushed completes cop (negsuc zero) 0xFFE50000 0x02000000 1 refl target1
      two_insns-IsValid

-- Thread 1 writes its third MOP register.
mmio_read-mmio_write_example :
    (cop' : Cop Bool) × (mmio_write completes 0 cop (pos 1) 0xFFB80008 77 ≡ handled cop')
    × ((mmio_read cop' (pos 1) 0xFFB80008).1 ≡ some 77)
    × ((u : ℕ) (other : ℕ → ℕ)
        → u < 3
        → u ≢ 1
        → cop.core.memory.ldm u ≡ some other
        → (mmio_read cop' (pos u) 0xFFB80008).1 ≡ (mmio_read cop (pos u) 0xFFB80008).1)
    × (in_mop_cfg 0xFFB80008 ≡ true → (cop'.threads 1).mop_cfg ((0xFFB80008 - 0xFFB80000) / 4) ≡ 77)
unfolding is_per_core_addr
mmio_read-mmio_write_example =
    mmio_read-mmio_write completes 0 cop 1 0xFFB80008 77 (omega arith) refl (omega arith) refl

semaphore_writes_example :
    (posted : Cop Bool) × (got : Cop Bool) × (mmio_write completes 0 cop
        (negsuc zero)
        (0xFFE80020 + 3 * 4)
        0
      ≡ handled posted)
    × (mmio_write completes 0 cop (negsuc zero) (0xFFE80020 + 3 * 4) 1 ≡ handled got)
    × ((j : ℕ) → j < 8 → posted.core.syncs.sem j ≡ (ttsempost cop.core (2 ^ 3 * 4) 0).0.syncs.sem j)
    × ((j : ℕ) → j < 8 → got.core.syncs.sem j ≡ (ttsemget cop.core (2 ^ 3 * 4) 0).0.syncs.sem j)
semaphore_writes_example = semaphore_writes completes 0 cop (negsuc zero) 3 0 (omega arith)

-- The UPDATE register of stream 1, from register 24 of thread 2.
mmio_write-ttstorereg_example :
    (cop' : Cop Bool) × (mmio_write completes 0 cop (pos 2) 0xFFB41438 (cop.core.dma_reg 2 24)
      ≡ handled cop')
    × (cop'.core ≡ (ttstorereg cop.core (store_imm 24 0xFFB41438) 2).0)
    × (cop'.threads ≡ cop.threads)
mmio_write-ttstorereg_example =
    mmio_write-ttstorereg completes 0 cop (pos 2) 24 2 0xFFB41438 (omega arith) refl (omega arith)
