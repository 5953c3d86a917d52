-- ===== src/Mailbox/Tests.antt =====
-- The mailbox theorems at concrete mailboxes: BRISC is core -1, TRISC0 core 0.
use native.Mathlib.Omega.{arith}
use rv32_emu.Base.{ℕ, ◌≡◌, refl, true, false, some, [], ltb, if◌then◌else◌, ℤ, pos, negsuc}
use rv32_emu.Base.Ring.{window}
use rv32_emu.Base.Queue.{enqueue}
use rv32_emu.Mailbox.Defs.{
  Mailbox, mailbox_fifo_depth, core_index, target, in_range, write, read, process,
}
use rv32_emu.Mailbox.Channel.{IsValid, channel, Other}
use rv32_emu.Mailbox.Routing.{box, write-sends, read-process, write-read}

abbrev brisc : ℤ
brisc = negsuc 0

abbrev trisc0 : ℤ
trisc0 = pos 0

abbrev empty_boxes : Mailbox
empty_boxes = record { fifo = λ s d i. 0; head = λ s d. 0; count = λ s d. 0; stall = λ c. false }

-- One word, 9, from BRISC to TRISC0.
abbrev one_word : Mailbox
one_word = record {
  fifo = λ s d i. 9;
  head = λ s d. 0;
  count = λ s d. if ltb s 1 then 1 else 0;
  stall = λ c. false;
}

empty_boxes-IsValid : IsValid empty_boxes
empty_boxes-IsValid = record { head_lt = λ s d. omega arith; count_le = λ s d. omega arith }

write-sends_example :
    (channel (write empty_boxes brisc (box 1) 9).0 0 (target (box 1))
      ≡ (enqueue mailbox_fifo_depth (channel empty_boxes 0 (target (box 1))) 9).0)
    × ((s d : ℕ)
        → Other 0 (target (box 1)) s d
        → channel (write empty_boxes brisc (box 1) 9).0 s d ≡ channel empty_boxes s d)
    × IsValid (write empty_boxes brisc (box 1) 9).0
    × ((write empty_boxes brisc (box 1) 9).0.stall ≡ empty_boxes.stall)
    × ((write empty_boxes brisc (box 1) 9).1 ≡ true)
unfolding in_range core_index
write-sends_example = write-sends empty_boxes brisc (box 1) refl refl 9 empty_boxes-IsValid

read-process_example :
    ((process (read empty_boxes trisc0 (box 0)).0 trisc0).1 ≡ true)
    × ((process (process (read empty_boxes trisc0 (box 0)).0 trisc0).0 trisc0).1 ≡ false)
    × ((s d : ℕ)
        → channel (process (read empty_boxes trisc0 (box 0)).0 trisc0).0 s d
          ≡ channel empty_boxes s d)
unfolding in_range core_index target channel window
read-process_example = read-process empty_boxes trisc0 (box 0) refl refl refl refl

write-read_example :
    ((read (write empty_boxes brisc (box 1) 9).0 trisc0 (box 0)).1 ≡ some 9)
    × (channel (read (write empty_boxes brisc (box 1) 9).0 trisc0 (box 0)).0 0 1 ≡ [])
unfolding core_index channel window
write-read_example =
    write-read empty_boxes brisc trisc0 9 empty_boxes-IsValid refl refl (omega arith) (omega arith)
      refl
