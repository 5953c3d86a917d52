-- ===== src/Fifo/Defs.antt =====
-- The FIFO of 32 instruction words, as `tensix_fifo` and its operations have it.
-- `buffer[i]` is a function of `i`; a function that writes through a pointer returns the new FIFO.
use rv32_emu.Base.{
  ℕ, ◌+◌, ◌-◌, ◌%◌, Bool, true, false, Option, none, some, ◌==◌, leb, if◌then◌else◌, update, u32,
}

abbrev pub fifo_size : ℕ
fifo_size = 32

pub record Fifo : Type 0 where
  pub buffer : ℕ → ℕ
  pub head : ℕ
  pub tail : ℕ
  pub count : ℕ

-- `memset` leaves every field, the buffer too, at zero.
unfoldable pub init : Fifo
init = record { buffer = λ i. 0; head = 0; tail = 0; count = 0 }

unfoldable pub is_empty : Fifo → Bool
is_empty f = f.count == 0

unfoldable pub is_full : Fifo → Bool
is_full f = leb fifo_size f.count

-- The new FIFO, and whether the word was accepted.
unfoldable pub push : Fifo → ℕ → Fifo × Bool
unfolding is_full
push f insn = if is_full f then (f, false) else (
  record f {
    buffer = update f.buffer f.tail insn;
    tail = u32 (f.tail + 1) % fifo_size;
    count = u32 (f.count + 1);
  },
  true,
)

-- `none` is the `false` of the C function, which leaves `*insn` alone. `count--` runs only at
-- `count != 0`.
unfoldable pub pop : Fifo → Option (ℕ × Fifo)
unfolding is_empty
pop f =
    if is_empty f
    then none
    else some
        (f.buffer f.head, record f { head = u32 (f.head + 1) % fifo_size; count = f.count - 1 })
