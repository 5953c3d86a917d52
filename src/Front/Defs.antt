-- ===== src/Front/Defs.antt =====
-- The parts of tensix_impl.c that the two MMIO handlers are made of. The guards on null pointers of
-- the coprocessor are left out, as are messages.
use rv32_emu.Base.{
  ℕ, zero, suc, ◌+◌, ◌-◌, ◌*◌, ◌/◌, ◌%◌, ◌^◌, Bool, true, false, ◌&&◌, ◌||◌, Option, none, some,
  ◌==◌, ltb, leb, if◌then◌else◌, update, field, ℤ, pos, negsuc,
}
use rv32_emu.Base.Memory.{load32, store32}
use rv32_emu.Core.{Core}
use rv32_emu.Cop.{Cop, Thread, set_thread, thread_index}
use rv32_emu.Cop
use rv32_emu.Cop.Executor.{Executor}

-- `addr >= first && addr <= last`
abbrev pub between : ℕ → ℕ → ℕ → Bool
between first last addr = leb first addr && leb addr last

-- The regions.
abbrev pub in_mop_cfg : ℕ → Bool
in_mop_cfg = between 0xFFB80000 0xFFB80023

abbrev pub in_regfile : ℕ → Bool
in_regfile = between 0xFFE00000 0xFFE00FFF

abbrev pub in_pc_buf : ℕ → Bool
in_pc_buf = between 0xFFE80000 0xFFE8001F

abbrev pub in_mailbox : ℕ → Bool
in_mailbox = between 0xFFEC0000 0xFFEC3FFF

abbrev pub in_sems : ℕ → Bool
in_sems = between 0xFFE80020 0xFFE8003F

abbrev pub in_insn_buf : ℕ → Bool
in_insn_buf = between 0xFFE40000 0xFFE6FFFF

abbrev pub in_stream : ℕ → Bool
in_stream addr = leb 0xFFB40000 addr && ltb addr 0xFFB80000

abbrev pub in_cfg : ℕ → Bool
in_cfg = between 0xFFEF0000 0xFFEFFFFF

unfoldable pub is_per_core_addr : ℕ → Bool
is_per_core_addr addr = in_mop_cfg addr || (in_regfile addr || in_pc_buf addr)

unfoldable pub addr_to_ldm_offset : ℕ → ℕ
addr_to_ldm_offset addr =
    if in_mop_cfg addr
    then 0x2000 + (addr - 0xFFB80000)
    else if in_regfile addr
    then 0x2100 + (addr - 0xFFE00000)
    else if in_pc_buf addr
    then 0x3100 + (addr - 0xFFE80000)
    else 0xFFFFFFFF

-- The semaphore after a write: post, get, or a value.
unfoldable pub write_sem : ℕ → ℕ → ℕ
write_sem data_word sem =
    if data_word == 0
    then (if ltb sem 15 then sem + 1 else sem)
    else if data_word == 1
    then (if ltb 0 sem then sem - 1 else sem)
    else field data_word 0 4

-- The thread that a write to an instruction buffer pushes to; -1 is BRISC.
unfoldable pub target_thread : ℤ → ℕ → Option ℕ
target_thread (pos n) addr = if leb addr 0xFFE4FFFF && leb n 2 then some n else none
target_thread (negsuc zero) addr =
    if leb addr 0xFFE4FFFF then some 0 else if leb addr 0xFFE5FFFF then some 1 else some 2
target_thread (negsuc (suc n)) addr = none

module _ {D : Type 0} where
  abbrev pub set_core : Cop D → Core D → Cop D
  set_core cop core = record cop { core = core }

  -- `tensix_push`, whose guard is that of `tensix_cop_push`.
  unfoldable pub tensix_push : Cop D → ℕ → ℤ → Cop D × Bool
  unfolding Cop.push
  tensix_push cop insn core_id = Cop.push cop core_id insn

  unfoldable pub write_mop_cfg : Cop D → ℤ → ℕ → ℕ → Cop D
  unfolding thread_index
  write_mop_cfg cop core_id offset value = elim (thread_index core_id) [
    | none ↦ cop
    | some t ↦
        let th = cop.threads t in
        if ltb (offset / 4) 9
        then set_thread cop t (record th { mop_cfg = update th.mop_cfg (offset / 4) value })
        else cop
  ]

  -- The word that goes to a thread's local memory, and the MOP register that shadows it.
  unfoldable pub write_ldm : Cop D → ℕ → ℕ → ℕ → Cop D
  unfolding addr_to_ldm_offset
  write_ldm cop t addr value =
      let off = addr_to_ldm_offset addr in
      let mem = cop.core.memory in
      elim (mem.ldm t) [
        | none ↦ cop
        | some ldm ↦
            if ltb off 0x4000
            then set_core cop (record cop.core {
              memory = record mem { ldm = update mem.ldm t (some (store32 ldm off value)) };
            })
            else cop
      ]

  unfoldable pub write_per_core : Cop D → ℕ → ℕ → ℕ → Cop D
  unfolding write_ldm write_mop_cfg
  write_per_core cop t addr value =
      let cop' = write_ldm cop t addr value in
      if in_mop_cfg addr then write_mop_cfg cop' (pos t) (addr - 0xFFB80000) value else cop'

  -- The word of a thread's local memory; `none` where the region is not there.
  unfoldable pub read_ldm : Cop D → ℕ → ℕ → Option ℕ
  unfolding addr_to_ldm_offset
  read_ldm cop t addr = elim (cop.core.memory.ldm t) [
    | none ↦ none
    | some ldm ↦
        let off = addr_to_ldm_offset addr in if ltb off 0x4000 then some (load32 ldm off) else none
  ]

  unfoldable pub write_semaphore : Cop D → ℕ → ℕ → Cop D
  unfolding write_sem
  write_semaphore cop i value =
      let core = cop.core in
      set_core cop (record core {
        syncs = record core.syncs {
          sem = update core.syncs.sem i (write_sem value (core.syncs.sem i));
        };
      })

  -- Two 16-bit slots of Dest that lie side by side.
  unfoldable pub dbg_array_rd : Core D → ℕ
  dbg_array_rd core =
      let cmd = core.dbg_array_rd_cmd in
      let row = field cmd 0 12 in
      let col0 = field cmd 12 4 * 2 in
      let slot = λ (col : ℕ). if ltb col 16 then core.dest row col % 2 ^ 16 else 0 in
      if field cmd 16 3 == 2 && ltb row 1024 then slot col0 + slot (col0 + 1) * 2 ^ 16 else 0

-- What a write ends in. `handled` is the C function's true, `unhandled` its false, after which the
-- caller writes to memory; `assertion` is the assertion of the instruction buffers.
pub data Outcome (D : Type 0) : Type 0 where
  handled : Cop D → Outcome D
  unhandled : Cop D → Outcome D
  assertion : Cop D → Outcome D
  out_of_fuel : Outcome D

-- `while (!tensix_push(...)) { if (!tensix_step(...)) assert(...); }` on fuel.
unfoldable pub push_draining : {D : Type 0} → Executor D → ℕ → Cop D → ℤ → ℕ → Outcome D
unfolding tensix_push Cop.step
push_draining ex zero cop target insn = out_of_fuel
push_draining ex (suc fuel) cop target insn =
    let (cop', ok) = tensix_push cop insn target in
    let (stepped, ran) = Cop.step ex cop' target in
    elim ok [
      | true ↦ handled cop'
      | false ↦ elim ran [
        | true ↦ push_draining ex fuel stepped target insn
        | false ↦ assertion stepped
      ]
    ]
