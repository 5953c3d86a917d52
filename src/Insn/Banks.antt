-- ===== src/Insn/Banks.antt =====
-- Who owns the SrcA and SrcB banks: the instructions that hand a bank over, and the read-write
-- counters that SETRWC and INCRWC move. A handler returns the new core and the Boolean of the C
-- function.
use rv32_emu.Base.{
  ℕ, ◌+◌, Bool, true, false, not, ◌&&◌, ◌||◌, if◌then◌else◌, update, field, bit, bit_xor, u32,
}
use rv32_emu.Core.{Core, Banks, Rwc}

-- `bank ^= 1` on a bank number, 0 or 1.
abbrev pub other_bank : ℕ → ℕ
other_bank b = bit_xor b 1

-- The unpackers' bank to the matrix unit.
abbrev pub give_srca : Banks → Banks
give_srca b = record b {
  srca_dvalid = update b.srca_dvalid b.unp_srca_bank true;
  unp_srca_bank = other_bank b.unp_srca_bank;
}

abbrev pub give_srcb : Banks → Banks
give_srcb b = record b {
  srcb_dvalid = update b.srcb_dvalid b.unp_srcb_bank true;
  unp_srcb_bank = other_bank b.unp_srcb_bank;
}

-- The matrix unit's bank back to the unpackers.
abbrev pub free_srca : Banks → Banks
free_srca b = record b {
  srca_dvalid = update b.srca_dvalid b.math_srca_bank false;
  math_srca_bank = other_bank b.math_srca_bank;
}

abbrev pub free_srcb : Banks → Banks
free_srcb b = record b {
  srcb_dvalid = update b.srcb_dvalid b.math_srcb_bank false;
  math_srcb_bank = other_bank b.math_srcb_bank;
}

-- `if (test) f`
abbrev pub when : Bool → (Banks → Banks) → Banks → Banks
when test f b = if test then f b else b

abbrev pub reset_banks : Banks → Banks
reset_banks b = record b {
  srca_dvalid = update (update b.srca_dvalid 0 false) 1 false;
  srcb_dvalid = update (update b.srcb_dvalid 0 false) 1 false;
  unp_srca_bank = 0;
  unp_srcb_bank = 0;
  math_srca_bank = 0;
  math_srcb_bank = 0;
  dest_dvalid = false;
}

abbrev set_srca : Rwc → ℕ → Rwc
set_srca r v = record r { srca = v; srca_cr = v }

abbrev set_srcb : Rwc → ℕ → Rwc
set_srcb r v = record r { srcb = v; srcb_cr = v }

abbrev set_dest : Rwc → ℕ → Rwc
set_dest r v = record r { dest = v; dest_cr = v }

abbrev rwc_srca : ℕ → Rwc → Rwc
rwc_srca imm r =
    if bit imm 0
    then set_srca r (if bit imm 18 then u32 (field imm 6 4 + r.srca_cr) else field imm 6 4)
    else r

abbrev rwc_srcb : ℕ → Rwc → Rwc
rwc_srcb imm r =
    if bit imm 1
    then set_srcb r (if bit imm 19 then u32 (field imm 10 4 + r.srcb_cr) else field imm 10 4)
    else r

abbrev rwc_dest : ℕ → Rwc → Rwc
rwc_dest imm r =
    if bit imm 2
    then set_dest r (
        if bit imm 21
        then u32 (field imm 14 4 + r.dest)
        else (if bit imm 20 then u32 (field imm 14 4 + r.dest_cr) else field imm 14 4))
    else r

abbrev rwc_fidelity : ℕ → Rwc → Rwc
rwc_fidelity imm r = if bit imm 3 then record r { fidelity = 0 } else r

-- A bank that the matrix unit does not own is not flipped.
abbrev pub free_owned_srca : Banks → Banks
free_owned_srca b = if b.srca_dvalid b.math_srca_bank then free_srca b else b

abbrev pub free_owned_srcb : Banks → Banks
free_owned_srcb b = if b.srcb_dvalid b.math_srcb_bank then free_srcb b else b

module _ {D : Type 0} where
  abbrev pub set_banks : Core D → Banks → Core D
  set_banks core b = record core { banks = b }

  unfoldable pub ttsetdvalid : Core D → ℕ → ℕ → Core D × Bool
  ttsetdvalid core imm tid =
      (set_banks core (when (bit imm 1) give_srcb (when (bit imm 0) give_srca core.banks)), true)

  unfoldable pub ttcleardvalid : Core D → ℕ → ℕ → Core D × Bool
  ttcleardvalid core imm tid = (
    set_banks core (
        if bit imm 0
        then reset_banks core.banks
        else when (bit imm 23) free_srcb (when (bit imm 22) free_srca core.banks)),
    true,
  )

  -- Not completed while a bank that it would free is not the matrix unit's.
  unfoldable pub ttsetrwc : Core D → ℕ → ℕ → Core D × Bool
  ttsetrwc core imm tid =
      let b = core.banks in
      if bit imm 22 && not (b.srca_dvalid b.math_srca_bank)
        || bit imm 23 && not (b.srcb_dvalid b.math_srcb_bank)
      then (core, false)
      else let r = rwc_fidelity imm (rwc_dest imm (rwc_srcb imm (rwc_srca imm (core.rwc tid)))) in
        (
          record core {
            rwc = update core.rwc tid r;
            banks = when (bit imm 23) free_owned_srcb (when (bit imm 22) free_owned_srca b);
          },
          true,
        )

  unfoldable pub ttincrwc : Core D → ℕ → ℕ → Core D × Bool
  ttincrwc core imm tid =
      let r = core.rwc tid in
      let a = u32 ((if bit imm 18 then r.srca_cr else r.srca) + field imm 6 4) in
      let b = u32 ((if bit imm 19 then r.srcb_cr else r.srcb) + field imm 10 4) in
      let d = u32 ((if bit imm 20 then r.dest_cr else r.dest) + field imm 14 4) in
      (
        record core {
          rwc = update core.rwc tid (record r {
            srca = a;
            srca_cr = if bit imm 18 then a else r.srca_cr;
            srcb = b;
            srcb_cr = if bit imm 19 then b else r.srcb_cr;
            dest = d;
            dest_cr = if bit imm 20 then d else r.dest_cr;
          });
        },
        true,
      )
