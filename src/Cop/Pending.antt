-- ===== src/Cop/Pending.antt =====
-- The instructions of a thread that wait to be executed, and what fetching one takes of them.
use rv32_emu.Base.{
  ℕ, ◌+◌, ◌≤◌, ◌≡◌, refl, sym, ap, ◌∙◌, Bool, true, false, none, some, List, [], ◌∷◌, ◌++◌,
  if◌then◌else◌, arith, Bool-cases, Option-cases, inl, inr, update_self, length,
}
use rv32_emu.Fifo
use rv32_emu.Fifo.Refine
use rv32_emu.Gate
use rv32_emu.Cop.State.{Cop, Thread, idle, u64, set_thread}
use rv32_emu.Cop.Step.{fetch, retire}

-- The instructions that wait, the next first: the pending one, then those of the FIFO.
unfoldable pub pending : Thread → List ℕ
unfolding Refine.view
pending th = (if th.has_current_insn then th.current_insn ∷ [] else []) ++ Refine.view th.insn_fifo

-- A step that ran took the first instruction, one that did not took none.
unfoldable pub Consumes : List ℕ → List ℕ → Bool → Type 0
Consumes before after true = (insn : ℕ) × (before ≡ insn ∷ after)
Consumes before after false = after ≡ before

pub pending-fresh :
    (th : Thread) → th.has_current_insn ≡ false → pending th ≡ Refine.view th.insn_fifo
unfolding pending
pending-fresh th e = rw e refl

pub pending-parked :
    (th : Thread)
    → th.has_current_insn ≡ true
    → pending th ≡ th.current_insn ∷ Refine.view th.insn_fifo
unfolding pending
pending-parked th e = rw e refl

-- What `fetch` takes, and what it leaves.
pub data Fetched (th : Thread) : Type 0 where
  nothing : fetch th ≡ none → pending th ≡ [] → Fetched th
  fetched :
      (insn : ℕ) (th' : Thread)
      → fetch th ≡ some (insn, th')
      → pending th ≡ insn ∷ pending th'
      → th'.has_current_insn ≡ false
      → Refine.IsValid th'.insn_fifo
      → th'.wait_gate ≡ th.wait_gate
      → Fetched th

pub fetch-Fetched : (th : Thread) → Refine.IsValid th.insn_fifo → Fetched th
unfolding fetch
fetch-Fetched th v = elim (Bool-cases th.has_current_insn) [
  | inl e ↦
      fetched th.current_insn (record th { has_current_insn = false }) (rw (fetch, e) refl)
        (pending-parked th e ∙ sym (ap (λ q. th.current_insn ∷ q) (pending-fresh _ refl))) refl v
        refl
  | inr e ↦ elim (Option-cases (Fifo.pop th.insn_fifo)) [
    | inl gone ↦
        nothing (rw (fetch, e, gone) refl)
          (pending-fresh th e ∙ Refine.view-pop-none th.insn_fifo v gone)
    | inr ((insn, fifo), got) ↦
        fetched insn (record th { insn_fifo = fifo }) (simp (fetch, e, got) refl)
          (pending-fresh th e
            ∙ Refine.view-pop-some th.insn_fifo fifo insn v got
            ∙ sym (ap (λ q. insn ∷ q) (pending-fresh _ e)))
          e (Refine.pop-IsValid th.insn_fifo fifo insn v got) refl
  ]
]

-- The thread that is set is there, and the others are as they were.
pub set_thread_self :
    {D : Type 0} (cop : Cop D) (t : ℕ) (th : Thread) → (set_thread cop t th).threads t ≡ th
set_thread_self cop t th = update_self cop.threads t th

-- Retiring, the gate and `zmask_hi16` have no part in it.
pub pending-retire : (th : Thread) → pending (retire th) ≡ pending th
unfolding pending
pending-retire th = refl

pub pending-gate :
    (th : Thread) (g : Gate.Gate) → pending (record th { wait_gate = g }) ≡ pending th
unfolding pending
pending-gate th g = refl

pub pending-zmask : (th : Thread) (z : ℕ) → pending (record th { zmask_hi16 = z }) ≡ pending th
unfolding pending
pending-zmask th z = refl

pub pending-idle :
    (th : Thread)
    → pending (record th { state = idle; cycles_idle = u64 (th.cycles_idle + 1) }) ≡ pending th
unfolding pending
pending-idle th = refl

-- One FIFO and one pending instruction.
pub pending-length :
    (th : Thread) → Refine.IsValid th.insn_fifo → length (pending th) ≤ Fifo.fifo_size + 1
pending-length th v = elim (Bool-cases th.has_current_insn) [
  | inl e ↦
      omega (arith, ap length (pending-parked th e), Refine.length-view th.insn_fifo, v.count_le)
  | inr e ↦
      omega (arith, ap length (pending-fresh th e), Refine.length-view th.insn_fifo, v.count_le)
]
