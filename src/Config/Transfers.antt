-- ===== src/Config/Transfers.antt =====
-- STOREREG and LOADREG of tt_insn.c, and the stream registers that a store changes besides.
use rv32_emu.Base.{
  ℕ, ◌+◌, ◌-◌, ◌*◌, ◌%◌, ◌^◌, Bool, true, ◌&&◌, none, some, ◌==◌, ltb, leb, if◌then◌else◌, field,
  u32, bit_or,
}
use rv32_emu.Base.Memory.{load32, store32}
use rv32_emu.Core.{Core}
use rv32_emu.Config.Defs.{set_memory, set_reg}

-- The stream overlay's UPDATE register: the 17-bit signed increment in bits 22 to 6, as the 32-bit
-- word that is added.
unfoldable pub stream_increment : ℕ → ℕ
stream_increment value =
    let raw = field value 6 17 in if field raw 16 1 == 1 then bit_or raw 0xFFFE0000 else raw

-- `*avail += increment` on a word of memory.
unfoldable pub add_word : (ℕ → ℕ) → ℕ → ℕ → ℕ → ℕ
add_word high offset increment = store32 high offset (u32 (load32 high offset + increment))

abbrev pub high_mem_size : ℕ
high_mem_size = 0x400000

-- The address of the first byte of high memory.
abbrev pub high_base : ℕ
high_base = 0xFFB00000

-- Whether an address is the UPDATE register of a stream, whose AVAILABLE register, in high memory
-- too, then grows.
abbrev pub updates_stream : ℕ → Bool
updates_stream addr =
    leb 0xFFB40000 addr
    && (ltb addr 0xFFB80000
        && ((addr - 0xFFB40000) % 2 ^ 12 == 0x438 && ltb (addr - high_base + 0x6C) high_mem_size))

module _ {D : Type 0} where
  abbrev pub store_high : (ℕ → ℕ) → Core D → Core D
  store_high high core = set_memory core (record core.memory { high_mem = some high })

  unfoldable pub ttstorereg : Core D → ℕ → ℕ → Core D × Bool
  unfolding stream_increment add_word
  ttstorereg core imm tid =
      let value = core.dma_reg tid (field imm 18 6) in
      let target_addr = high_base + field imm 0 18 * 4 in
      let offset = target_addr - high_base in
      (
        if ltb target_addr 0xFFB11000 then core else elim core.memory.high_mem [
          | none ↦ core
          | some high ↦
              let stored = store32 high offset value in
              if ltb offset high_mem_size
              then if updates_stream target_addr
                then store_high (add_word stored (offset + 0x6C) (stream_increment value)) core
                else store_high stored core
              else core
        ],
        true,
      )

  unfoldable pub ttloadreg : Core D → ℕ → ℕ → Core D × Bool
  ttloadreg core imm tid =
      let target_addr = high_base + field imm 0 18 * 4 in
      let offset = target_addr - high_base in
      let value : ℕ = elim core.memory.high_mem [
        | none ↦ 0
        | some high ↦ if ltb offset high_mem_size then load32 high offset else 0
      ] in
      (if ltb target_addr 0xFFB11000 then core else set_reg core tid (field imm 18 6) value, true)
