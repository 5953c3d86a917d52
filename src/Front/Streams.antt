-- ===== src/Front/Streams.antt =====
-- A stream register is written the same way by a core and by STOREREG.
use rv32_emu.Base.{
  ℕ, ◌+◌, ◌-◌, ◌*◌, ◌/◌, ◌%◌, ◌^◌, ◌<◌, ◌≡◌, refl, sym, ap, true, false, arith, Bool-cases,
  Option-cases, inl, inr, ltb, ℤ, u32, field,
}
use rv32_emu.Base.Memory.{load32, store32, load32-store32_apart, store32-store32_apart}
use rv32_emu.Cop.{Cop}
use rv32_emu.Cop.Executor.{Executor}
use rv32_emu.Config.{
  high_base, high_mem_size, updates_stream, stream_increment, add_word, store_high, ttstorereg,
}
use rv32_emu.Front.Defs.{handled, in_stream, in_mailbox, in_sems, in_insn_buf, is_per_core_addr}
use rv32_emu.Front.Routes.{mmio_write, write_stream}

-- The increment may be added before or after the word is stored beside it.
add_word-store32 :
    (high : ℕ → ℕ) (offset value inc : ℕ)
    → add_word (store32 high offset value) (offset + 0x6C) inc
      ≡ store32 (add_word high (offset + 0x6C) inc) offset value
unfolding add_word
add_word-store32 high offset value inc =
    let before : load32 (store32 high offset value) (offset + 0x6C) ≡ load32 high (offset + 0x6C) =
      load32-store32_apart high offset value (offset + 0x6C) (inr (omega arith)) in
    rw before (
      store32-store32_apart high offset value (offset + 0x6C)
        (u32 (load32 high (offset + 0x6C) + inc)) (omega arith))

stream-apart :
    (addr : ℕ)
    → in_stream addr ≡ true
    → (in_mailbox addr ≡ false)
      × (in_sems addr ≡ false)
      × (is_per_core_addr addr ≡ false)
      × (in_insn_buf addr ≡ false)
unfolding is_per_core_addr
stream-apart addr h = (ground arith, ground arith, ground arith, ground arith)

stream-route :
    {D : Type 0} (ex : Executor D) (fuel : ℕ) (cop : Cop D) (core_id : ℤ) (addr value : ℕ)
    → in_stream addr ≡ true
    → mmio_write ex fuel cop core_id addr value ≡ handled (write_stream cop addr value)
unfolding mmio_write
stream-route ex fuel cop core_id addr value h =
    let (no_box, no_sem, no_core, no_buf) = stream-apart addr h in
    rw (mmio_write, no_box, no_sem, no_core, no_buf, h) refl

write_stream-threads :
    {D : Type 0} (cop : Cop D) (addr value : ℕ)
    → (write_stream cop addr value).threads ≡ cop.threads
unfolding write_stream
write_stream-threads cop addr value = elim (Option-cases cop.core.memory.high_mem) [
  | inl gone ↦ simp (write_stream, gone) refl
  | inr (high, present) ↦ elim (Bool-cases (ltb (addr - high_base) high_mem_size)) [
    | inl inside ↦ simp (write_stream, present, inside) refl
    | inr beyond ↦ simp (write_stream, present, beyond) refl
  ]
]

-- The `imm` of a STOREREG.
abbrev pub store_imm : ℕ → ℕ → ℕ
store_imm reg addr = reg * 2 ^ 18 + (addr - high_base) / 4

pub ttstorereg-write_stream :
    {D : Type 0} (cop : Cop D) (reg tid addr : ℕ)
    → reg < 64
    → in_stream addr ≡ true
    → addr % 4 ≡ 0
    → (ttstorereg cop.core (store_imm reg addr) tid).0
      ≡ (write_stream cop addr (cop.core.dma_reg tid reg)).core
unfolding ttstorereg write_stream add_word stream_increment
ttstorereg-write_stream cop reg tid addr r h aligned =
    let offset : ℕ = addr - high_base in
    let value : ℕ = cop.core.dma_reg tid reg in
    let number : field (store_imm reg addr) 18 6 ≡ reg = ground arith in
    let target : high_base + field (store_imm reg addr) 0 18 * 4 ≡ addr = ground arith in
    let high_enough : ltb addr 0xFFB11000 ≡ false = ground arith in
    let inside : ltb offset high_mem_size ≡ true = ground arith in
    elim (Option-cases cop.core.memory.high_mem) [
      | inl gone ↦ simp (ttstorereg, write_stream, gone, target, high_enough) refl
      | inr (high, present) ↦ elim (Bool-cases (updates_stream addr)) [
        | inl moves ↦
            simp (ttstorereg, write_stream, present, number, target, high_enough, inside, moves)
              (ap (λ (stored : ℕ → ℕ). store_high stored cop.core)
                (add_word-store32 high offset value (stream_increment value)))
        | inr plain ↦
            simp (ttstorereg, write_stream, present, number, target, high_enough, inside, plain)
              refl
      ]
    ]

-- A write of the word in a scalar register to an aligned stream address, by any core, leaves the
-- core state as a STOREREG of that register to that address does, the UPDATE registers included,
-- and no thread changes.
pub mmio_write-ttstorereg :
    {D : Type 0} (ex : Executor D) (fuel : ℕ) (cop : Cop D) (core_id : ℤ) (reg tid addr : ℕ)
    → reg < 64
    → in_stream addr ≡ true
    → addr % 4 ≡ 0
    → (cop' : Cop D) × (mmio_write ex fuel cop core_id addr (cop.core.dma_reg tid reg)
        ≡ handled cop')
      × (cop'.core ≡ (ttstorereg cop.core (store_imm reg addr) tid).0)
      × (cop'.threads ≡ cop.threads)
unfolding write_stream
mmio_write-ttstorereg ex fuel cop core_id reg tid addr r h aligned =
    let cop' = write_stream cop addr (cop.core.dma_reg tid reg) in
    (
      cop',
      stream-route ex fuel cop core_id addr (cop.core.dma_reg tid reg) h,
      sym (ttstorereg-write_stream cop reg tid addr r h aligned),
      write_stream-threads cop addr (cop.core.dma_reg tid reg),
    )
