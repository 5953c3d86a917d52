-- ===== src/Lib.antt =====
-- The Tensix coprocessor of the simulator, the fork's own code in tt_cop/: three threads that take
-- instructions from FIFOs, hold them back at wait gates, expand macro operations and execute them
-- on one core that they share, and the mailboxes between the cores of a tile.
--
-- The files, by the part of the program:
--   Base       shared names and lemmas: tests, arrays, bits and bit fields, words in memory, loops
--              over selected entries, ring buffers, bounded queues, exclusive or
--   Core       the parts of `struct tensix` (tt_cop/tensix.h) that the modelled code uses
--   Fifo       tensix_fifo_* of tt_cop/tensix_cop.c
--   Mailbox    tt_cop/mailbox.c and mailbox.h
--   Gate       insn_get_block_bits and wait_gate_* of tt_cop/tensix_cop.c
--   Mop        mop_* and tensix_cop_mop_expand of tt_cop/tensix_cop.c
--   Cop        the state, tensix_cop_step and the loops over it, and tensix_cop_step_direct, in
--              tt_cop/tensix_cop.c
--   Insn       the sync, bank, counter, DMA register and expander handlers of tt_cop/tt_insn.c,
--              and the dispatch of tensix_execute_insn
--   Config     the configuration space of tt_cop/tensix.h; WRCFG, RDCFG, SETC16, RMWCIB,
--              CFGSHIFTMASK, STOREREG and LOADREG of tt_cop/tt_insn.c
--   Counters   the address counters and the address modes of tt_cop/tt_insn.c
--   Floats     the arithmetic of C's `float`, as a parameter
--   Sfpu       the vector unit's instructions of tt_cop/tt_insn.c: predication, integers, moves,
--              arithmetic and tables
--   Matrix     the matrix unit's instructions of tt_cop/tt_insn.c, with ZEROACC, ZEROSRC and
--              UNPACR_NOP, on SrcA, SrcB and Dest
--   Datum      the data formats' conversions of tt_cop/tt_insn.c
--   Driver     rv32_run_co of rv32sim.c
--   Front      tensix_init, tensix_reset, tensix_clear, tensix_push, tensix_mmio_read and
--              tensix_mmio_write of tt_cop/tensix_impl.c
-- A client pushes instructions to a thread's FIFO; a step fetches one, asks the thread's gate and
-- the bank flags of the core, and executes it. Handlers change the core and, for MOP and MOP_CFG,
-- the thread. The processor cores reach the coprocessor through memory-mapped registers: Front
-- routes a read or a write to the mailboxes, the semaphores, a core's local memory with the MOP
-- registers, the FIFOs, the stream registers in high memory and the configuration.
--
-- What a step is measured against is described apart from the code: the units that an opcode needs
-- and the operands that it reads, by ranges of opcodes (Gate.Units, Cop.Ready), and what the word
-- that a step takes is used for (Cop.Trace).
--
-- A function that writes through a pointer returns the new state, with the C function's result
-- beside it; memory is a function from offsets to bytes, little-endian, and `none` where the C
-- pointer is null; an array is a function of its index; a 32-bit or 64-bit counter wraps where it is
-- written. The step functions stand over any executor that keeps the laws of Cop.Executor, and
-- Insn.Instance shows that the dispatch keeps them, whatever UNPACR and PACR do: those are one
-- parameter, `datapath`, which may read the coprocessor and change the core. A float is its bit
-- pattern, and the operations on floats are the parameter `ops` of Floats, with no law assumed; so
-- are C's casts, in Datum. A loop over the rows and columns of a register file is a fold over its
-- cells (Matrix.Grid). The emulator that Driver steps is a parameter too.
--
-- Bounds and fuel: a FIFO holds 32 words and a mailbox 4. The unbounded `for (;;)` of the
-- template 1 generator has 4 turns of fuel for each outer iteration left and one more, and the loop
-- that drains a thread 34, one more than the words that can wait; both are shown to be enough. The
-- direct path (Cop.Direct) has the fuel that its caller gives, since replayed instructions may start
-- a replay again. A write to an instruction buffer has 34 turns, which are shown to be enough too. A
-- SEMWAIT looks at 8 semaphores, as the code does. The loop of rv32_run_co has the fuel that its
-- caller gives, which is enough if the emulator has halted by then.
--
-- Not modelled: rv32emu/ with softfloat and mini-gdbstub, which are other projects' copies; the
-- unpackers' UNPACR and the packer's PACR in tt_cop/tt_insn.c; the guards of tt_cop/tensix_impl.c on
-- null pointers of the coprocessor; traces and messages on stderr; the functions of rv32sim.c that
-- only allocate or call the emulator; the test programs.
pub mod Base
pub mod Fifo
pub mod Mailbox
pub mod Core
pub mod Gate
pub mod Mop
pub mod Cop
pub mod Insn
pub mod Floats
pub mod Driver
pub mod Datum
pub mod Config
pub mod Counters
pub mod Sfpu
pub mod Matrix
pub mod Front
