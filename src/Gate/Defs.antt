-- ===== src/Gate/Defs.antt =====
-- The wait gate and its functions. A function that writes through `gate` returns the new gate; the
-- TT_DBG traces are left out.
use rv32_emu.Base.{
  ℕ, zero, suc, ◌+◌, ◌^◌, Bool, true, false, not, ◌&&◌, ◌||◌, List, [], ◌∷◌, ◌==◌, leb,
  if◌then◌else◌, field, bit, elem,
}
use rv32_emu.Core.{Banks, Syncs}

abbrev pub opcode_stallwait : ℕ
opcode_stallwait = 0xA2

abbrev pub opcode_semwait : ℕ
opcode_semwait = 0xA6

abbrev pub opcode_streamwait : ℕ
opcode_streamwait = 0xA7

abbrev pub is_wait : ℕ → Bool
is_wait opcode =
    opcode == opcode_stallwait || opcode == opcode_semwait || opcode == opcode_streamwait

unfoldable pub insn_opcode : ℕ → ℕ
insn_opcode insn = field insn 24 8

unfoldable pub insn_param : ℕ → ℕ
insn_param insn = field insn 0 24

-- The labels of each arm of `insn_get_block_bits`.
abbrev misc_opcodes : List ℕ
misc_opcodes = 0x53 ∷ 0x56 ∷ 0x52 ∷ 0x55 ∷ 0x44 ∷ 0x50 ∷ 0x5E ∷ 0x51 ∷ 0x54 ∷ 0x57 ∷ []

abbrev sync_opcodes : List ℕ
sync_opcodes = 0xA0 ∷ 0xA1 ∷ 0xA5 ∷ 0xA3 ∷ 0xA4 ∷ []

abbrev packer_opcodes : List ℕ
packer_opcodes = 0x41 ∷ 0x4A ∷ []

abbrev unpacker_opcodes : List ℕ
unpacker_opcodes = 0x42 ∷ 0x43 ∷ []

abbrev mover_opcodes : List ℕ
mover_opcodes = 0x40 ∷ []

abbrev thcon_opcodes : List ℕ
thcon_opcodes =
    0x58 ∷ 0x64 ∷ 0x61 ∷ 0x62 ∷ 0x63 ∷ 0x5B ∷ 0x5D ∷ 0x60 ∷ 0x46 ∷ 0x49 ∷ 0x68 ∷ 0x5A ∷ 0x48 ∷ 0x45
    ∷ 0x5C ∷ 0x66 ∷ 0x67 ∷ 0x59 ∷ []

abbrev matrix_opcodes : List ℕ
matrix_opcodes =
    0x25 ∷ 0x32 ∷ 0x36 ∷ 0x21 ∷ 0x22 ∷ 0x23 ∷ 0x29 ∷ 0x28 ∷ 0x27 ∷ 0x30 ∷ 0x34 ∷ 0x35 ∷ 0x33 ∷ 0x38
    ∷ 0x3A ∷ 0x12 ∷ 0x0B ∷ 0x13 ∷ 0x08 ∷ 0x0A ∷ 0x09 ∷ 0x24 ∷ 0x31 ∷ 0x26 ∷ 0x37 ∷ 0x17 ∷ 0x18
    ∷ 0x16 ∷ 0x10 ∷ 0x11 ∷ []

abbrev config_opcodes : List ℕ
config_opcodes = 0xB8 ∷ 0xB1 ∷ 0xB3 ∷ 0xB4 ∷ 0xB5 ∷ 0xB6 ∷ 0xB2 ∷ 0xB7 ∷ 0xB0 ∷ []

abbrev vector_opcodes : List ℕ
vector_opcodes =
    0x7D ∷ 0x85 ∷ 0x75 ∷ 0x7E ∷ 0x99 ∷ 0x90 ∷ 0x8B ∷ 0x91 ∷ 0x76 ∷ 0x8A ∷ 0x77 ∷ 0x78 ∷ 0x97 ∷ 0x79
    ∷ 0x96 ∷ 0x70 ∷ 0x71 ∷ 0x93 ∷ 0x73 ∷ 0x95 ∷ 0x81 ∷ 0x84 ∷ 0x7C ∷ 0x86 ∷ 0x98 ∷ 0x74 ∷ 0x8F
    ∷ 0x80 ∷ 0x7F ∷ 0x88 ∷ 0x87 ∷ 0x7B ∷ 0x82 ∷ 0x83 ∷ 0x89 ∷ 0x7A ∷ 0x94 ∷ 0x8E ∷ 0x72 ∷ 0x92
    ∷ 0x8C ∷ 0x8D ∷ []

abbrev wait_opcodes : List ℕ
wait_opcodes = 0xA2 ∷ 0xA6 ∷ 0xA7 ∷ []

-- The units an instruction needs, bit i for the unit Bi of STALLWAIT's block mask.
unfoldable pub insn_get_block_bits : ℕ → ℕ
insn_get_block_bits opcode =
    if elem opcode misc_opcodes
    then 2 ^ 0
    else if elem opcode sync_opcodes
    then 2 ^ 1
    else if elem opcode packer_opcodes
    then 2 ^ 0 + 2 ^ 2
    else if elem opcode unpacker_opcodes
    then 2 ^ 0 + 2 ^ 3
    else if elem opcode mover_opcodes
    then 2 ^ 0 + 2 ^ 4
    else if elem opcode thcon_opcodes
    then 2 ^ 0 + 2 ^ 5
    else if elem opcode matrix_opcodes
    then 2 ^ 6
    else if elem opcode config_opcodes
    then 2 ^ 7
    else if elem opcode vector_opcodes
    then 2 ^ 8
    else if elem opcode wait_opcodes
    then 0x1FF
    else 0

pub record Gate : Type 0 where
  pub active : Bool
  pub opcode : ℕ
  pub condition_mask : ℕ
  pub block_mask : ℕ
  pub semaphore_mask : ℕ
  pub target_value : ℕ
  pub stream_select : ℕ

-- A field whose zero stands for another value.
abbrev or_default : ℕ → ℕ → ℕ
or_default x d = if x == 0 then d else x

abbrev latch_stallwait : Gate → ℕ → Gate
latch_stallwait g param = record g {
  active = true;
  opcode = opcode_stallwait;
  block_mask = or_default (field param 15 9) (2 ^ 6);
  condition_mask = or_default (field param 0 15) 0x0F;
  semaphore_mask = 0;
}

-- A SEMWAIT without a condition is a STALLWAIT.
abbrev latch_semwait : Gate → ℕ → Gate
latch_semwait g param =
    let block = or_default (field param 15 9) (2 ^ 6) in
    if field param 0 2 == 0
    then record g {
      active = true;
      opcode = opcode_stallwait;
      block_mask = block;
      condition_mask = 0x0F;
      semaphore_mask = 0;
    }
    else record g {
      active = true;
      opcode = opcode_semwait;
      block_mask = block;
      condition_mask = field param 0 2;
      semaphore_mask = field param 2 13;
    }

abbrev latch_streamwait : Gate → ℕ → Gate
latch_streamwait g param = record g {
  active = true;
  opcode = opcode_streamwait;
  block_mask = or_default (field param 15 9) (2 ^ 6);
  condition_mask = 2 ^ field param 3 1;
  stream_select = field param 0 3;
  target_value = field param 4 11;
}

unfoldable pub latch : Gate → ℕ → Gate
unfolding insn_opcode insn_param
latch g insn =
    let opcode = insn_opcode insn in
    let param = insn_param insn in
    if opcode == opcode_stallwait
    then latch_stallwait g param
    else if opcode == opcode_semwait
    then latch_semwait g param
    else if opcode == opcode_streamwait
    then latch_streamwait g param
    else record g { active = true; opcode = opcode }

-- `for (i = from; i < from + n; i++) if (mask & (1 << i)) if (p(i)) return false;`: whether it
-- returns from inside.
unfoldable pub selected_from : (ℕ → Bool) → ℕ → ℕ → ℕ → Bool
selected_from p mask zero from = false
selected_from p mask (suc n) from = (bit mask from && p from) || selected_from p mask n (suc from)

abbrev check_stall : ℕ → Banks → Bool
check_stall cond banks =
    if bit cond 5 && banks.srca_dvalid banks.unp_srca_bank
    then false
    else if bit cond 6 && banks.srcb_dvalid banks.unp_srcb_bank
    then false
    else if bit cond 7 && not (banks.srca_dvalid banks.math_srca_bank)
    then false
    else if bit cond 8 && not (banks.srcb_dvalid banks.math_srcb_bank)
    then false
    else true

-- Whether semaphore `i` holds a SEMWAIT for zero, or for the maximum.
abbrev pub is_zero : Syncs → ℕ → Bool
is_zero syncs i = syncs.sem i == 0

abbrev pub is_max : Syncs → ℕ → Bool
is_max syncs i = leb (syncs.sem_max i) (syncs.sem i)

abbrev check_sem : ℕ → ℕ → Syncs → Bool
check_sem cond mask syncs =
    if bit cond 0 && selected_from (is_zero syncs) mask 8 0
    then false
    else if bit cond 1 && selected_from (is_max syncs) mask 8 0
    then false
    else true

-- Whether the gate lets a blocked instruction through.
unfoldable pub check : Gate → Banks → Syncs → Bool
check g banks syncs =
    if not g.active
    then true
    else if g.opcode == opcode_stallwait
    then check_stall g.condition_mask banks
    else if g.opcode == opcode_semwait
    then check_sem g.condition_mask g.semaphore_mask syncs
    else true

-- `memset` clears every field.
unfoldable pub clear : Gate → Gate
clear g = record {
  active = false;
  opcode = 0;
  condition_mask = 0;
  block_mask = 0;
  semaphore_mask = 0;
  target_value = 0;
  stream_select = 0;
}
