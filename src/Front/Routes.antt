-- ===== src/Front/Routes.antt =====
-- `tensix_mmio_read` and `tensix_mmio_write`: which part answers which address, in the order of the
-- source.
use rv32_emu.Base.{ℕ, ◌+◌, ◌-◌, ◌/◌, ◌||◌, Option, none, some, ◌==◌, ltb, if◌then◌else◌, ℤ, pos}
use rv32_emu.Base.Memory.{load32, store32}
use rv32_emu.Core.{Core}
use rv32_emu.Mailbox
use rv32_emu.Cop.{Cop, thread_index}
use rv32_emu.Cop.Executor.{Executor}
use rv32_emu.Config.{
  high_base, high_mem_size, updates_stream, stream_increment, add_word, store_high, seed_prng,
}
use rv32_emu.Front.Defs.{
  set_core, in_mailbox, in_sems, in_insn_buf, in_stream, in_cfg, is_per_core_addr, write_semaphore,
  write_per_core, read_ldm, dbg_array_rd, target_thread, push_draining, Outcome, handled, unhandled,
}

module _ {D : Type 0} where
  -- A stream register: a write to UPDATE first moves AVAILABLE of the stream.
  unfoldable pub write_stream : Cop D → ℕ → ℕ → Cop D
  unfolding add_word stream_increment
  write_stream cop addr value =
      let offset = addr - high_base in
      elim cop.core.memory.high_mem [
        | none ↦ cop
        | some high ↦
            let moved =
              if updates_stream addr
              then add_word high (offset + 0x6C) (stream_increment value)
              else high in
            if ltb offset high_mem_size
            then set_core cop (store_high (store32 moved offset value) cop.core)
            else set_core cop (store_high moved cop.core)
      ]

  -- The configuration registers whose write the coprocessor notices. The word itself is written by
  -- the caller.
  unfoldable pub notice_cfg : Core D → ℕ → ℕ → Core D
  notice_cfg core reg_idx value =
      let core' = if reg_idx == 69 then record core { pack_l1_write_offset = 0 } else core in
      if reg_idx == 186 || reg_idx == 186 + 224 then seed_prng core' value else core'

  -- `none` where the address is not special; else what goes through `result`.
  unfoldable pub mmio_read : Cop D → ℤ → ℕ → Cop D × Option ℕ
  unfolding Mailbox.read is_per_core_addr read_ldm dbg_array_rd thread_index
  mmio_read cop core_id addr =
      let per_core : Option ℕ =
        if is_per_core_addr addr
        then elim (thread_index core_id) [ none ↦ none | some t ↦ read_ldm cop t addr ]
        else none in
      let stream : Option ℕ = elim cop.core.memory.high_mem [
        | none ↦ none
        | some high ↦
            if ltb (addr - high_base) high_mem_size
            then some (load32 high (addr - high_base))
            else none
      ] in
      let other : Option ℕ =
        if in_insn_buf addr
        then some 0
        else if in_stream addr
        then stream
        else if in_cfg addr
        then none
        else if addr == 0xFFB121F0 || addr == 0xFFB121F8
        then some 0xFFFFFFFF
        else if addr == 0xFFB1206C
        then some (dbg_array_rd cop.core)
        else none in
      if in_mailbox addr
      then (
        set_core cop (record cop.core { mailbox = (Mailbox.read cop.core.mailbox core_id addr).0 }),
        (Mailbox.read cop.core.mailbox core_id addr).1,
      )
      else if in_sems addr
      then (cop, some (cop.core.syncs.sem ((addr - 0xFFE80020) / 4)))
      else elim per_core [ some word ↦ (cop, some word) | none ↦ (cop, other) ]

  -- A write to an address that is not of one core.
  abbrev pub write_shared : Executor D → ℕ → Cop D → ℤ → ℕ → ℕ → Outcome D
  write_shared ex fuel cop core_id addr value =
      if in_insn_buf addr
      then elim (target_thread core_id addr) [
        | none ↦ handled cop
        | some t ↦ push_draining ex fuel cop (pos t) value
      ]
      else if in_stream addr
      then handled (write_stream cop addr value)
      else if in_cfg addr
      then unhandled (set_core cop (notice_cfg cop.core ((addr - 0xFFEF0000) / 4) value))
      else if addr == 0xFFB12064
      then handled (set_core cop (record cop.core { dbg_array_rd_cmd = value }))
      else if addr == 0xFFB12060
      then handled cop
      else unhandled cop

  unfoldable pub mmio_write : Executor D → ℕ → Cop D → ℤ → ℕ → ℕ → Outcome D
  unfolding Mailbox.write is_per_core_addr write_per_core write_semaphore target_thread
      push_draining write_stream notice_cfg thread_index
  mmio_write ex fuel cop core_id addr value =
      if in_mailbox addr
      then unhandled (
          set_core cop
            (record cop.core { mailbox = (Mailbox.write cop.core.mailbox core_id addr value).0 }))
      else if in_sems addr
      then handled (write_semaphore cop ((addr - 0xFFE80020) / 4) value)
      else if is_per_core_addr addr
      then elim (thread_index core_id) [
        | some t ↦ handled (write_per_core cop t addr value)
        | none ↦ write_shared ex fuel cop core_id addr value
      ]
      else write_shared ex fuel cop core_id addr value
