-- ===== src/Mailbox/Defs.antt =====
-- The 16 mailbox FIFOs (4 cores by 4 targets, 4 words each) and the functions of mailbox.c.
-- A function that changes `*tt` returns the new mailboxes; the warnings on stderr are left out.
use rv32_emu.Base.{
  ℕ, ◌+◌, ◌-◌, ◌/◌, ◌%◌, ◌^◌, Bool, true, false, ◌&&◌, Option, none, some, ltb, leb, ◌==◌,
  if◌then◌else◌, update, field, ℤ, pos, negsuc, zero, suc,
}

abbrev pub mailbox_cores : ℕ
mailbox_cores = 4

abbrev pub mailbox_fifo_depth : ℕ
mailbox_fifo_depth = 4

abbrev pub addr_base : ℕ
addr_base = 0xFFEC0000

abbrev pub addr_end : ℕ
addr_end = 0xFFEC3FFF

-- `mailbox_fifo[src][dst][slot]`, `mailbox_head[src][dst]`, `mailbox_count[src][dst]` and
-- `mailbox_stall[core]` of `struct tensix`.
pub record Mailbox : Type 0 where
  pub fifo : ℕ → ℕ → ℕ → ℕ
  pub head : ℕ → ℕ → ℕ
  pub count : ℕ → ℕ → ℕ
  pub stall : ℕ → Bool

-- A write at two indices.
abbrev pub update₂ {ℓ} : {A : Type ℓ} → (ℕ → ℕ → A) → ℕ → ℕ → A → ℕ → ℕ → A
update₂ f s d a = update f s (update (f s) d a)

-- `none` is the -1 of the C function: NCRISC, or no core at all.
unfoldable pub core_index : ℤ → Option ℕ
core_index (pos n) = if leb n 2 then some (n + 1) else none
core_index (negsuc zero) = some 0
core_index (negsuc (suc n)) = none

-- Called on an address in range only, so the subtraction does not wrap.
unfoldable pub target : ℕ → ℕ
target addr = (addr - addr_base) / 2 ^ 12

unfoldable pub in_range : ℕ → Bool
in_range addr = leb addr_base addr && leb addr addr_end

unfoldable pub fifo_push : Mailbox → ℕ → ℕ → ℕ → Mailbox × Bool
fifo_push m src dst value =
    let count = m.count src dst in
    let idx = (m.head src dst + count) % mailbox_fifo_depth in
    if leb mailbox_fifo_depth count then (m, false) else (
      record m {
        fifo = update₂ m.fifo src dst (update (m.fifo src dst) idx value);
        count = update₂ m.count src dst (count + 1);
      },
      true,
    )

-- The word that goes through `value`, and the new mailboxes; `none` is the `false`.
unfoldable pub fifo_pop : Mailbox → ℕ → ℕ → Option (ℕ × Mailbox)
fifo_pop m src dst =
    let count = m.count src dst in
    let head = m.head src dst in
    if count == 0
    then none
    else some (
      m.fifo src dst head,
      record m {
        head = update₂ m.head src dst ((head + 1) % mailbox_fifo_depth);
        count = update₂ m.count src dst (count - 1);
      },
    )

-- The Boolean is whether the address is a mailbox.
unfoldable pub write : Mailbox → ℤ → ℕ → ℕ → Mailbox × Bool
unfolding in_range core_index target fifo_push
write m core_id addr value =
    if in_range addr
    then elim (core_index core_id) [
      | none ↦ (m, true)
      | some src ↦ ((fifo_push m src (target addr) value).0, true)
    ]
    else (m, false)

-- `none` where the address is no mailbox; else what goes through `result`, which every other path
-- of the C function writes.
unfoldable pub read : Mailbox → ℤ → ℕ → Mailbox × Option ℕ
unfolding in_range core_index target fifo_pop
read m core_id addr =
    if in_range addr
    then elim (core_index core_id) [
      | none ↦ (m, some 0)
      | some reader ↦
          if field addr 2 1 == 1
          then (m, some (if ltb 0 (m.count (target addr) reader) then 1 else 0))
          else elim (fifo_pop m (target addr) reader) [
            | none ↦ (record m { stall = update m.stall reader true }, some 0)
            | some (value, m') ↦ (m', some value)
          ]
    ]
    else (m, none)

-- Whether the core was stalled; the flag is cleared.
unfoldable pub process : Mailbox → ℤ → Mailbox × Bool
unfolding core_index
process m core_id = elim (core_index core_id) [
  | none ↦ (m, false)
  | some mci ↦
      if m.stall mci then (record m { stall = update m.stall mci false }, true) else (m, false)
]
