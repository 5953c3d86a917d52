-- ===== src/Insn/Semaphores.antt =====
-- What the semaphore instructions do to each semaphore, and that a post lets a waiting thread go.
use rv32_emu.Base.{
  ℕ, ◌<◌, ◌≡◌, ap, ◌∙◌, true, ◌==◌, if◌then◌else◌, field, bit, arith, Bool-cases, inl, inr,
}
use rv32_emu.Core.{Core}
use rv32_emu.Gate
use rv32_emu.Gate.{Gate}
use rv32_emu.Gate.Conditions.{check_semwait}
use rv32_emu.Base.Selected.{each_selected-in}
use rv32_emu.Insn.Sync.{post_value, get_value, ttseminit, ttsempost, ttsemget}

module _ {D : Type 0} (core : Core D) (imm tid : ℕ) where
  -- SEMINIT gives exactly the selected ones of the eight semaphores the initial value and the
  -- maximum of the instruction, and leaves the others.
  pub ttseminit-sem :
      (i : ℕ)
      → i < 8
      → ((ttseminit core imm tid).0.syncs.sem i
          ≡ (if bit (field imm 2 8) i then field imm 16 4 else core.syncs.sem i))
        × ((ttseminit core imm tid).0.syncs.sem_max i
            ≡ (if bit (field imm 2 8) i then field imm 20 4 else core.syncs.sem_max i))
  unfolding ttseminit
  ttseminit-sem i h = (
    each_selected-in (λ v. field imm 16 4) (field imm 2 8) 8 0 core.syncs.sem i (omega arith)
        (omega arith),
    each_selected-in (λ v. field imm 20 4) (field imm 2 8) 8 0 core.syncs.sem_max i (omega arith)
        (omega arith),
  )

  pub ttsempost-sem :
      (i : ℕ)
      → i < 8
      → (ttsempost core imm tid).0.syncs.sem i
        ≡ (if bit (field imm 2 8) i then post_value (core.syncs.sem i) else core.syncs.sem i)
  unfolding ttsempost
  ttsempost-sem i h = elim (Bool-cases (tid == 1)) [
    | inl math ↦ rw math (
        each_selected-in post_value (field imm 2 8) 8 0 core.syncs.sem i (omega arith)
          (omega arith))
    | inr other ↦ rw other (
        each_selected-in post_value (field imm 2 8) 8 0 core.syncs.sem i (omega arith)
          (omega arith))
  ]

  pub ttsemget-sem :
      (i : ℕ)
      → i < 8
      → (ttsemget core imm tid).0.syncs.sem i
        ≡ (if bit (field imm 2 8) i then get_value (core.syncs.sem i) else core.syncs.sem i)
  unfolding ttsemget
  ttsemget-sem i h =
      each_selected-in get_value (field imm 2 8) 8 0 core.syncs.sem i (omega arith) (omega arith)

-- A SEMGET of the semaphores that a SEMPOST has posted gives each of the eight that was below 15
-- its value back.
pub ttsemget-ttsempost :
    {D : Type 0} (core : Core D) (imm tid tid' i : ℕ)
    → i < 8
    → core.syncs.sem i < 15
    → (ttsemget (ttsempost core imm tid).0 imm tid').0.syncs.sem i ≡ core.syncs.sem i
ttsemget-ttsempost core imm tid tid' i h room =
    ttsemget-sem (ttsempost core imm tid).0 imm tid' i h
    ∙ ap (λ (v : ℕ). if bit (field imm 2 8) i then get_value v else v)
        (ttsempost-sem core imm tid i h)
    ∙ undone
  where
    undone :
        (if bit (field imm 2 8) i
          then get_value
              (if bit (field imm 2 8) i then post_value (core.syncs.sem i) else core.syncs.sem i)
          else (if bit (field imm 2 8) i then post_value (core.syncs.sem i) else core.syncs.sem i))
        ≡ core.syncs.sem i
    undone = ground arith

-- An active SEMWAIT gate that waits only for semaphores not to be zero opens after a SEMPOST of
-- all the semaphores of the eight that it selects.
pub check-ttsempost :
    {D : Type 0} (core : Core D) (imm tid : ℕ) (g : Gate)
    → g.active ≡ true
    → g.opcode ≡ Gate.opcode_semwait
    → g.condition_mask ≡ 1
    → ((i : ℕ) → i < 8 → bit g.semaphore_mask i ≡ true → bit (field imm 2 8) i ≡ true)
    → Gate.check g (ttsempost core imm tid).0.banks (ttsempost core imm tid).0.syncs ≡ true
check-ttsempost core imm tid g on waits zero_only posts =
    let posted = (ttsempost core imm tid).0 in
    (check_semwait g posted.banks posted.syncs on waits).1 (λ i lt sel. (
      λ c z. ground (arith, ttsempost-sem core imm tid i lt, posts i lt sel),
      λ c. ground (arith, zero_only),
    ))
