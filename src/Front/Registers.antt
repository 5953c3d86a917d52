-- ===== src/Front/Registers.antt =====
-- The registers of each core, and the semaphores, as a core sees them.
use rv32_emu.Base.{
  ℕ, ◌+◌, ◌-◌, ◌*◌, ◌/◌, ◌^◌, ◌<◌, ◌≡◌, ◌≢◌, refl, sym, ap, ◌∙◌, true, false, Option, some, arith,
  Bool, Bool-cases, inl, inr, ltb, ◌==◌, holds_below, holds_below_sound, same, same_sound, ℤ, pos,
  update, update_self, update-ne, field, bit,
}
use rv32_emu.Base.Memory.{load32, store32, load32-store32}
use rv32_emu.Core.{Memory}
use rv32_emu.Cop.{Cop, Thread, thread_index}
use rv32_emu.Cop.Executor.{Executor}
use rv32_emu.Insn.{ttsempost, ttsemget}
use rv32_emu.Insn.Semaphores.{ttsempost-sem, ttsemget-sem}
use rv32_emu.Front.Defs.{
  handled, is_per_core_addr, in_mailbox, in_sems, in_mop_cfg, addr_to_ldm_offset, read_ldm,
  write_ldm, write_per_core, write_mop_cfg, write_semaphore, write_sem,
}
use rv32_emu.Front.Routes.{mmio_read, mmio_write}

-- No other part answers for a core's own addresses.
per_core-apart :
    (addr : ℕ) → is_per_core_addr addr ≡ true → (in_mailbox addr ≡ false) × (in_sems addr ≡ false)
unfolding is_per_core_addr
per_core-apart addr h = (ground arith, ground arith)

-- The words of the three regions lie in the 16 KB, and apart from one another.
pub ldm_offset-lt : (addr : ℕ) → is_per_core_addr addr ≡ true → addr_to_ldm_offset addr < 0x4000
unfolding is_per_core_addr addr_to_ldm_offset
ldm_offset-lt addr h = ground arith

module _ {D : Type 0} (ex : Executor D) (fuel : ℕ) (cop : Cop D) (t addr : ℕ) (is_thread : t < 3)
    (mine : is_per_core_addr addr ≡ true) where
  index : thread_index (pos t) ≡ some t
  unfolding thread_index
  index = ground arith

  write-route :
      (value : ℕ)
      → mmio_write ex fuel cop (pos t) addr value ≡ handled (write_per_core cop t addr value)
  unfolding mmio_write
  write-route value =
      let (no_box, no_sem) = per_core-apart addr mine in
      rw (mmio_write, no_box, no_sem, mine, index) refl

  -- What a write leaves in the local memories: the word in the thread's own, and the others.
  write_ldm-memory :
      {ldm : ℕ → ℕ} (value : ℕ)
      → cop.core.memory.ldm t ≡ some ldm
      → (write_ldm cop t addr value).core.memory.ldm
        ≡ update cop.core.memory.ldm t (some (store32 ldm (addr_to_ldm_offset addr) value))
  unfolding write_ldm
  write_ldm-memory value present =
      let inside : ltb (addr_to_ldm_offset addr) 0x4000 ≡ true =
        ground (arith, ldm_offset-lt addr mine) in
      rw (write_ldm, present, inside) refl

  write_per_core-memory :
      (value : ℕ)
      → (write_per_core cop t addr value).core.memory ≡ (write_ldm cop t addr value).core.memory
  unfolding write_per_core write_mop_cfg
  write_per_core-memory value = elim (Bool-cases (in_mop_cfg addr)) [
    | inl cfg ↦ elim (Bool-cases (ltb ((addr - 0xFFB80000) / 4) 9)) [
      | inl known ↦ rw (write_per_core, cfg, write_mop_cfg, index, known) refl
      | inr beyond ↦ rw (write_per_core, cfg, write_mop_cfg, index, beyond) refl
    ]
    | inr other ↦ rw (write_per_core, other) refl
  ]

  -- A MOP register follows the word.
  write-mop_cfg :
      (value : ℕ)
      → in_mop_cfg addr ≡ true
      → ((write_per_core cop t addr value).threads t).mop_cfg ((addr - 0xFFB80000) / 4) ≡ value
  unfolding write_per_core write_mop_cfg
  write-mop_cfg value cfg =
      let k : ℕ = (addr - 0xFFB80000) / 4 in
      let known : ltb k 9 ≡ true = ground arith in
      let written : Cop D = write_ldm cop t addr value in
      let th' : Thread = written.threads t in
      rw (write_per_core, cfg, write_mop_cfg, index, known)
        (ap (λ (th : Thread). th.mop_cfg k)
            (update_self written.threads t (record th' { mop_cfg = update th'.mop_cfg k value }))
          ∙ update_self th'.mop_cfg k value)

module _ {D : Type 0} (cop : Cop D) (t addr : ℕ) (is_thread : t < 3)
    (mine : is_per_core_addr addr ≡ true) {ldm : ℕ → ℕ}
    (present : cop.core.memory.ldm t ≡ some ldm) where
  -- A read of one's own address is of the local memory.
  read-own : mmio_read cop (pos t) addr ≡ (cop, some (load32 ldm (addr_to_ldm_offset addr)))
  unfolding mmio_read thread_index read_ldm
  read-own =
      let (no_box, no_sem) = per_core-apart addr mine in
      let known : ltb t 3 ≡ true = ground arith in
      let inside : ltb (addr_to_ldm_offset addr) 0x4000 ≡ true =
        ground (arith, ldm_offset-lt addr mine) in
      rw (mmio_read, no_box, no_sem, mine, thread_index, known, read_ldm, present, inside) refl

-- A 32-bit word that a core with a local memory writes to one of its own addresses is handled
-- and read back from there; what the other two cores read at that address stays as it was; and
-- for a MOP register the thread's register that the expander uses has the word too.
pub mmio_read-mmio_write :
    {D : Type 0} (ex : Executor D) (fuel : ℕ) (cop : Cop D) (t addr value : ℕ) {ldm : ℕ → ℕ}
    → t < 3
    → is_per_core_addr addr ≡ true
    → value < 2 ^ 32
    → cop.core.memory.ldm t ≡ some ldm
    → (cop' : Cop D) × (mmio_write ex fuel cop (pos t) addr value ≡ handled cop')
      × ((mmio_read cop' (pos t) addr).1 ≡ some value)
      × ((u : ℕ) (other : ℕ → ℕ)
          → u < 3
          → u ≢ t
          → cop.core.memory.ldm u ≡ some other
          → (mmio_read cop' (pos u) addr).1 ≡ (mmio_read cop (pos u) addr).1)
      × (in_mop_cfg addr ≡ true → (cop'.threads t).mop_cfg ((addr - 0xFFB80000) / 4) ≡ value)
mmio_read-mmio_write {D} ex fuel cop t addr value {ldm = ldm} is_thread mine small present =
    let cop' : Cop D = write_per_core cop t addr value in
    let off : ℕ = addr_to_ldm_offset addr in
    let mem : cop'.core.memory.ldm ≡ update cop.core.memory.ldm t (some (store32 ldm off value)) =
      ap (λ (m : Memory). m.ldm) (write_per_core-memory ex fuel cop t addr is_thread mine value)
      ∙ write_ldm-memory ex fuel cop t addr is_thread mine value present in
    let own : cop'.core.memory.ldm t ≡ some (store32 ldm off value) =
      ap (λ (f : ℕ → Option (ℕ → ℕ)). f t) mem ∙ update_self cop.core.memory.ldm t _ in
    (
      cop',
      write-route ex fuel cop t addr is_thread mine value,
      ap (λ r. r.1) (read-own cop' t addr is_thread mine own)
          ∙ ap some (load32-store32 ldm off value small),
      λ u other lt ne there.
          ap (λ r. r.1)
            (read-own cop' u addr lt mine (
              ap (λ (f : ℕ → Option (ℕ → ℕ)). f u) mem
              ∙ update-ne cop.core.memory.ldm t u _ ne
              ∙ there))
          ∙ sym (ap (λ r. r.1) (read-own cop u addr lt mine there)),
      write-mop_cfg ex fuel cop t addr is_thread mine value,
    )

-- A write of 0 to the address of a semaphore is a SEMPOST of it alone, and a write of 1 a SEMGET.
sem_addr :
    (i : ℕ)
    → i < 8
    → (in_mailbox (0xFFE80020 + i * 4) ≡ false) × (in_sems (0xFFE80020 + i * 4) ≡ true)
sem_addr i h = (ground arith, ground arith)

write-semaphore :
    {D : Type 0} (ex : Executor D) (fuel : ℕ) (cop : Cop D) (core_id : ℤ) (i value : ℕ)
    → i < 8
    → mmio_write ex fuel cop core_id (0xFFE80020 + i * 4) value
      ≡ handled (write_semaphore cop i value)
unfolding mmio_write
write-semaphore ex fuel cop core_id i value h =
    let (no_box, sem) = sem_addr i h in
    let number : (0xFFE80020 + i * 4 - 0xFFE80020) / 4 ≡ i = omega arith in
    rw (mmio_write, no_box, sem, number) refl

-- The mask of semaphore `i` selects it alone.
selects : ℕ → ℕ → Bool
selects i j = same (bit (field (2 ^ i * 4) 2 8) j) (j == i)

sem_bits : holds_below (λ i. holds_below (selects i) 8) 8 ≡ true
unfolding holds_below selects
sem_bits = refl

sem_bit : (i j : ℕ) → i < 8 → j < 8 → bit (field (2 ^ i * 4) 2 8) j ≡ (j == i)
unfolding selects
sem_bit i j h k = same_sound (bit (field (2 ^ i * 4) 2 8) j) (j == i) (
    holds_below_sound (selects i) 8
      (holds_below_sound (λ l. holds_below (selects l) 8) 8 sem_bits i h) j k)

-- For each of the eight semaphores, a write of 0 to its address leaves all eight as a SEMPOST of
-- that semaphore alone does, and a write of 1 as a SEMGET does.
pub semaphore_writes :
    {D : Type 0} (ex : Executor D) (fuel : ℕ) (cop : Cop D) (core_id : ℤ) (i tid : ℕ)
    → i < 8
    → (posted : Cop D) × (got : Cop D) × (mmio_write ex fuel cop core_id (0xFFE80020 + i * 4) 0
        ≡ handled posted)
      × (mmio_write ex fuel cop core_id (0xFFE80020 + i * 4) 1 ≡ handled got)
      × ((j : ℕ)
          → j < 8
          → posted.core.syncs.sem j ≡ (ttsempost cop.core (2 ^ i * 4) tid).0.syncs.sem j)
      × ((j : ℕ) → j < 8 → got.core.syncs.sem j ≡ (ttsemget cop.core (2 ^ i * 4) tid).0.syncs.sem j)
unfolding write_semaphore write_sem
semaphore_writes ex fuel cop core_id i tid h = (
  write_semaphore cop i 0,
  write_semaphore cop i 1,
  write-semaphore ex fuel cop core_id i 0 h,
  write-semaphore ex fuel cop core_id i 1 h,
  λ j k. ground (arith, sem_bit i j h k, ttsempost-sem cop.core (2 ^ i * 4) tid j k),
  λ j k. ground (arith, sem_bit i j h k, ttsemget-sem cop.core (2 ^ i * 4) tid j k),
)
