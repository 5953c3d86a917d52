-- ===== src/Counters/Defs.antt =====
-- SETADC, SETADCXX, and the three instructions each on the X and Y counters and on the Z and W
-- counters: set, increment, and restart from the checkpoint. Then the address modes, which move the
-- read-write counters after an instruction of the matrix or vector unit.
use rv32_emu.Base.{ℕ, ◌+◌, ◌/◌, ◌^◌, Bool, true, ◌==◌, ltb, if◌then◌else◌, update, field, bit, u32}
use rv32_emu.Core.{Core, Counters, Rwc}
use rv32_emu.Base.Selected.{each_selected}

-- `if (...) { ... }` on a counter unit.
abbrev pub apply_if : Bool → (Counters → Counters) → Counters → Counters
apply_if b f a = if b then f a else a

abbrev at₂ : (ℕ → ℕ → ℕ) → ℕ → ℕ → ℕ → ℕ → ℕ → ℕ
at₂ f c d v = update f c (update (f c) d v)

-- The counter of a channel and dimension and its checkpoint set to a value, the counter moved, and
-- the checkpoint moved with the counter following.
abbrev pub set_counter : ℕ → ℕ → ℕ → Counters → Counters
set_counter c d v a = record a { value = at₂ a.value c d v; cr = at₂ a.cr c d v }

abbrev pub inc_counter : ℕ → ℕ → ℕ → Counters → Counters
inc_counter c d inc a = record a { value = at₂ a.value c d (u32 (a.value c d + inc)) }

abbrev pub restart_counter : ℕ → ℕ → ℕ → Counters → Counters
restart_counter c d inc a =
    let moved = u32 (a.cr c d + inc) in
    record a { value = at₂ a.value c d moved; cr = at₂ a.cr c d moved }

-- The bodies of the loops over the units. `low` is the first of the two dimensions: 0 for X and Y,
-- 2 for Z and W.
abbrev pub set_pair : ℕ → ℕ → Counters → Counters
set_pair low imm a = apply_if (bit imm 3) (set_counter 1 (low + 1) (field imm 15 3)) (
    apply_if (bit imm 2) (set_counter 1 low (field imm 12 3)) (
      apply_if (bit imm 1) (set_counter 0 (low + 1) (field imm 9 3))
        (apply_if (bit imm 0) (set_counter 0 low (field imm 6 3)) a)))

abbrev pub inc_pair : ℕ → ℕ → Counters → Counters
inc_pair low imm a = inc_counter 1 (low + 1) (field imm 15 3) (
    inc_counter 1 low (field imm 12 3)
      (inc_counter 0 (low + 1) (field imm 9 3) (inc_counter 0 low (field imm 6 3) a)))

abbrev pub restart_pair : ℕ → ℕ → Counters → Counters
restart_pair low imm a = apply_if (bit imm 3) (restart_counter 1 (low + 1) (field imm 15 3)) (
    apply_if (bit imm 2) (restart_counter 1 low (field imm 12 3)) (
      apply_if (bit imm 1) (restart_counter 0 (low + 1) (field imm 9 3))
        (apply_if (bit imm 0) (restart_counter 0 low (field imm 6 3)) a)))

module _ {D : Type 0} where
  -- `for (t = 0; t < 3; t++) if ((cnt_set_mask >> t) & 1) ...`
  abbrev pub each_unit : (Counters → Counters) → Core D → ℕ → Core D × Bool
  each_unit f core imm =
      (record core { counters = each_selected f (field imm 21 3) 3 0 core.counters }, true)

  unfoldable pub ttsetadc : Core D → ℕ → ℕ → Core D × Bool
  ttsetadc core imm tid =
      each_unit (set_counter (field imm 20 1) (field imm 18 2) (field imm 0 18)) core imm

  unfoldable pub ttsetadcxx : Core D → ℕ → ℕ → Core D × Bool
  ttsetadcxx core imm tid =
      each_unit (λ a. set_counter 1 0 (field imm 10 10) (set_counter 0 0 (field imm 0 10) a)) core
        imm

  unfoldable pub ttsetadcxy : Core D → ℕ → ℕ → Core D × Bool
  ttsetadcxy core imm tid = each_unit (set_pair 0 imm) core imm

  unfoldable pub ttincadcxy : Core D → ℕ → ℕ → Core D × Bool
  ttincadcxy core imm tid = each_unit (inc_pair 0 imm) core imm

  unfoldable pub ttaddrcrxy : Core D → ℕ → ℕ → Core D × Bool
  ttaddrcrxy core imm tid = each_unit (restart_pair 0 imm) core imm

  unfoldable pub ttsetadczw : Core D → ℕ → ℕ → Core D × Bool
  ttsetadczw core imm tid = each_unit (set_pair 2 imm) core imm

  unfoldable pub ttincadczw : Core D → ℕ → ℕ → Core D × Bool
  ttincadczw core imm tid = each_unit (inc_pair 2 imm) core imm

  unfoldable pub ttaddrcrzw : Core D → ℕ → ℕ → Core D × Bool
  ttaddrcrzw core imm tid = each_unit (restart_pair 2 imm) core imm

-- The two counters of a source, as a pair of the counter and its checkpoint: cleared, restarted
-- from the moved checkpoint, or moved.
abbrev pub move_src : ℕ → ℕ → ℕ → ℕ × ℕ
move_src reg rwc cr =
    if field reg 7 1 == 1
    then (0, 0)
    else if field reg 6 1 == 1
    then (u32 (cr + field reg 0 6), u32 (cr + field reg 0 6))
    else (u32 (rwc + field reg 0 6), cr)

abbrev pub move_dest : ℕ → ℕ → ℕ → ℕ × ℕ
move_dest reg rwc cr =
    let incr = field reg 0 10 in
    if field reg 11 1 == 1
    then (0, 0)
    else if field reg 12 1 == 1
    then (u32 (rwc + incr), u32 (rwc + incr))
    else if field reg 10 1 == 1
    then (u32 (cr + incr), u32 (cr + incr))
    else (u32 (rwc + incr), cr)

-- The counters of a thread moved by an address mode, given by its two registers.
abbrev pub moved : ℕ → ℕ → Rwc → Rwc
moved ab_reg dst_reg r =
    let (a, a_cr) = move_src ab_reg r.srca r.srca_cr in
    let (b, b_cr) = move_src (ab_reg / 2 ^ 8) r.srcb r.srcb_cr in
    let (d, d_cr) = move_dest dst_reg r.dest r.dest_cr in
    record r {
      srca = a;
      srca_cr = a_cr;
      srcb = b;
      srcb_cr = b_cr;
      dest = d;
      dest_cr = d_cr;
      fidelity = if field dst_reg 15 1 == 1 then 0 else u32 (r.fidelity + field dst_reg 13 2);
    }

unfoldable pub apply_addr_mod : {D : Type 0} → Core D → ℕ → ℕ → Core D
apply_addr_mod core mod_idx tid =
    if ltb mod_idx 8
    then record core {
      rwc = update core.rwc tid (
          moved (core.thd_reg tid (12 + mod_idx)) (core.thd_reg tid (28 + mod_idx)) (core.rwc tid));
    }
    else core
