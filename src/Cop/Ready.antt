-- ===== src/Cop/Ready.antt =====
-- When an instruction may run: what the wait gate and the owners of the register banks have to say
-- of it, against the tests of the code (gate_asks, wait_gate_check and the auto-waits).
use rv32_emu.Base.{
  ℕ, ◌<◌, ◌≡◌, ◌≢◌, refl, ap, Bool, true, false, ◌&&◌, ◌||◌, ◌==◌, bit, bit_and, arith, Bool-cases,
  inl, inr,
}
use rv32_emu.Core.{Banks, Syncs}
use rv32_emu.Gate.{Gate, check, insn_opcode, opcode_stallwait, opcode_semwait}
use rv32_emu.Gate.Conditions.{busy, check_stallwait, check_semwait}
use rv32_emu.Gate.Units.{
  Apart, within, all_below, all_below-at, same_bool, same_bool-eq, bit_and-Apart, bit_and-no_unit,
}
use rv32_emu.Cop.Step.{auto_waits, gate_asks, insn_needs_srca, insn_needs_srcb, insn_needs_dest}

-- The instructions that read SrcA and SrcB, by their opcodes.
unfoldable pub reads_srca : ℕ → Bool
reads_srca op = within 0x22 0x29 op || within 0x30 0x34 op || op == 0x3A || op == 0x12

unfoldable pub reads_srcb : ℕ → Bool
reads_srcb op = within 0x22 0x23 op || within 0x26 0x29 op || op == 0x30

reads_agree :
    (all_below 256 λ op.
      same_bool (insn_needs_srca op) (reads_srca op)
      && same_bool (insn_needs_srcb op) (reads_srcb op))
    ≡ true
unfolding all_below insn_needs_srca insn_needs_srcb reads_srca reads_srcb
reads_agree = refl

insn_needs-reads :
    (op : ℕ)
    → op < 256
    → (insn_needs_srca op ≡ reads_srca op) × (insn_needs_srcb op ≡ reads_srcb op)
insn_needs-reads op lt =
    let row = all_below-at 256 _ reads_agree op lt in
    (
      same_bool-eq (insn_needs_srca op) (reads_srca op) (ground arith),
      same_bool-eq (insn_needs_srcb op) (reads_srcb op) (ground arith),
    )

-- The banks are in the hands that the instruction needs: those that the matrix unit reads are its
-- own, Dest is the packer's, and an UNPACR has its bank of SrcA, or of SrcB by its bit 23.
pub record Ready (banks : Banks) (insn : ℕ) : Type 0 where
  pub srca : reads_srca (insn_opcode insn) ≡ true → banks.srca_dvalid banks.math_srca_bank ≡ true
  pub srcb : reads_srcb (insn_opcode insn) ≡ true → banks.srcb_dvalid banks.math_srcb_bank ≡ true
  pub dest : insn_opcode insn ≡ 0x41 → banks.dest_dvalid ≡ true
  pub unpack_a :
      insn_opcode insn ≡ 0x42 → bit insn 23 ≡ false → banks.srca_dvalid banks.unp_srca_bank ≡ false
  pub unpack_b :
      insn_opcode insn ≡ 0x42 → bit insn 23 ≡ true → banks.srcb_dvalid banks.unp_srcb_bank ≡ false

-- The conditions of the gate are met.
pub data Open (g : Gate) (banks : Banks) (syncs : Syncs) : Type 0 where
  stall_over :
      g.opcode ≡ opcode_stallwait
      → ((c : ℕ) → bit g.condition_mask c ≡ true → busy banks c ≡ false)
      → Open g banks syncs
  sems_ready :
      g.opcode ≡ opcode_semwait
      → ((i : ℕ)
          → i < 8
          → bit g.semaphore_mask i ≡ true
          → (bit g.condition_mask 0 ≡ true → syncs.sem i ≢ 0)
            × (bit g.condition_mask 1 ≡ true → syncs.sem i < syncs.sem_max i))
      → Open g banks syncs
  other : g.opcode ≢ opcode_stallwait → g.opcode ≢ opcode_semwait → Open g banks syncs

-- The gate lets the instruction pass.
pub data Passes (g : Gate) (op : ℕ) (banks : Banks) (syncs : Syncs) : Type 0 where
  no_gate : g.active ≡ false → Passes g op banks syncs
  apart : Apart g op → Passes g op banks syncs
  met : Open g banks syncs → Passes g op banks syncs

pub insn_opcode-lt : (insn : ℕ) → insn_opcode insn < 256
unfolding insn_opcode
insn_opcode-lt insn = omega arith

module _ (banks : Banks) (insn : ℕ) where
  auto_waits-Ready : Ready banks insn → auto_waits banks (insn_opcode insn) insn ≡ false
  unfolding auto_waits insn_needs_dest
  auto_waits-Ready ready =
      let (a, b) = insn_needs-reads (insn_opcode insn) (insn_opcode-lt insn) in
      ground (arith, a, b, ready.srca, ready.srcb, ready.dest, ready.unpack_a, ready.unpack_b)

  pub Ready-auto_waits : auto_waits banks (insn_opcode insn) insn ≡ false → Ready banks insn
  unfolding auto_waits insn_needs_dest
  Ready-auto_waits free =
      let (a, b) = insn_needs-reads (insn_opcode insn) (insn_opcode-lt insn) in
      record {
        srca = λ e. ground arith;
        srcb = λ e. ground arith;
        dest = λ e. ground arith;
        unpack_a = λ e f. ground arith;
        unpack_b = λ e f. ground arith;
      }

  pub not-Ready : auto_waits banks (insn_opcode insn) insn ≡ true → ¬ Ready banks insn
  not-Ready held ready = absurd (cc (held, auto_waits-Ready ready))

module _ (g : Gate) (banks : Banks) (syncs : Syncs) (on : g.active ≡ true) where
  check-other : g.opcode ≢ opcode_stallwait → g.opcode ≢ opcode_semwait → check g banks syncs ≡ true
  unfolding check
  check-other no_stall no_sem = ground arith

  pub check-Open : Open g banks syncs → check g banks syncs ≡ true
  check-Open (stall_over kind free) = (check_stallwait g banks syncs on kind).1 free
  check-Open (sems_ready kind free) = (check_semwait g banks syncs on kind).1 free
  check-Open (other no_stall no_sem) = check-other no_stall no_sem

  pub Open-check : check g banks syncs ≡ true → Open g banks syncs
  Open-check opens = elim (Bool-cases (g.opcode == opcode_stallwait)) [
    | inl kind ↦
        let e : g.opcode ≡ opcode_stallwait = ground arith in
        stall_over e ((check_stallwait g banks syncs on e).0 opens)
    | inr no_stall ↦ elim (Bool-cases (g.opcode == opcode_semwait)) [
      | inl kind ↦
          let e : g.opcode ≡ opcode_semwait = ground arith in
          sems_ready e ((check_semwait g banks syncs on e).0 opens)
      | inr no_sem ↦ other (ground arith) (ground arith)
    ]
  ]

module _ (g : Gate) (op : ℕ) (lt : op < 256) where
  abbrev AsksNot : Type 0
  AsksNot = gate_asks g op ≡ false

  asks-Apart : Apart g op → AsksNot
  unfolding gate_asks
  asks-Apart free = ground (arith, bit_and-Apart g op lt free, free.no_nop)

  Apart-asks : g.active ≡ true → AsksNot → Apart g op
  unfolding gate_asks
  Apart-asks on quiet = elim (Bool-cases (op == 0x02 && g.block_mask == 0x1FF)) [
    | inl all ↦
        let mask : g.block_mask ≡ 0x1FF = ground arith in
        let some_bit : bit_and 0x1FF g.block_mask ≡ 0x1FF = ap (λ (m : ℕ). bit_and 0x1FF m) mask in
        absurd (ground (arith, some_bit))
    | inr plain ↦ record {
      no_unit = λ u needs. bit_and-no_unit g op u lt (ground arith) needs;
      no_nop = λ e f. ground arith;
    }
  ]

  active-asks : gate_asks g op ≡ true → g.active ≡ true
  unfolding gate_asks
  active-asks asks = ground arith

-- What the tests of the code say of the gate.
module _ (g : Gate) (op : ℕ) (lt : op < 256) (banks : Banks) (syncs : Syncs) where
  pub quiet-Passes : gate_asks g op ≡ false → Passes g op banks syncs
  quiet-Passes quiet = elim (Bool-cases g.active) [
    | inl on ↦ apart (Apart-asks g op lt on quiet)
    | inr off ↦ no_gate off
  ]

  pub open-Passes : gate_asks g op ≡ true → check g banks syncs ≡ true → Passes g op banks syncs
  open-Passes asks opens = met (Open-check g banks syncs (active-asks g op lt asks) opens)

  pub not-Passes : gate_asks g op ≡ true → check g banks syncs ≡ false → ¬ Passes g op banks syncs
  not-Passes asks shut (no_gate off) = absurd (cc (off, active-asks g op lt asks))
  not-Passes asks shut (apart free) = absurd (cc (asks, asks-Apart g op lt free))
  not-Passes asks shut (met opens) =
      absurd (cc (shut, check-Open g banks syncs (active-asks g op lt asks) opens))
