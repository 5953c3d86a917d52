-- ===== src/Insn/Sync.antt =====
-- The sync unit: mutexes and semaphores. A handler returns the new core and the Boolean of the C
-- function; `imm` is the low 24 bits of the instruction, `tid` the thread.
use rv32_emu.Base.{ℕ, ◌+◌, ◌-◌, Bool, true, ◌==◌, ltb, if◌then◌else◌, update, field}
use rv32_emu.Base.Selected.{each_selected}
use rv32_emu.Core.{Core, Syncs}

abbrev pub mutex_none : ℕ
mutex_none = 0xFF

-- A post stops at 15, a get at 0.
abbrev pub post_value : ℕ → ℕ
post_value v = if ltb v 15 then v + 1 else v

abbrev pub get_value : ℕ → ℕ
get_value v = if ltb 0 v then v - 1 else v

module _ {D : Type 0} where
  abbrev pub set_syncs : Core D → Syncs → Core D
  set_syncs core s = record core { syncs = s }

  -- A thread that does not get the mutex goes on all the same.
  unfoldable pub ttatgetm : Core D → ℕ → ℕ → Core D × Bool
  ttatgetm core imm tid =
      let id = field imm 0 3 in
      (
        if core.syncs.mutex id == mutex_none
            then set_syncs core (record core.syncs { mutex = update core.syncs.mutex id tid })
            else core,
        true,
      )

  unfoldable pub ttatrelm : Core D → ℕ → ℕ → Core D × Bool
  ttatrelm core imm tid =
      let id = field imm 0 3 in
      (
        if core.syncs.mutex id == tid
            then set_syncs core
                (record core.syncs { mutex = update core.syncs.mutex id mutex_none })
            else core,
        true,
      )

  -- The loop sets both arrays at each selected index.
  unfoldable pub ttseminit : Core D → ℕ → ℕ → Core D × Bool
  unfolding each_selected
  ttseminit core imm tid =
      let mask = field imm 2 8 in
      (
        set_syncs core (record core.syncs {
          sem = each_selected (λ v. field imm 16 4) mask 8 0 core.syncs.sem;
          sem_max = each_selected (λ v. field imm 20 4) mask 8 0 core.syncs.sem_max;
        }),
        true,
      )

  -- The math thread's post says that Dest is full.
  unfoldable pub ttsempost : Core D → ℕ → ℕ → Core D × Bool
  unfolding each_selected
  ttsempost core imm tid =
      let posted =
        set_syncs core (record core.syncs {
          sem = each_selected post_value (field imm 2 8) 8 0 core.syncs.sem;
        }) in
      (
        if tid == 1
            then record posted { banks = record core.banks { dest_dvalid = true } }
            else posted,
        true,
      )

  unfoldable pub ttsemget : Core D → ℕ → ℕ → Core D × Bool
  unfolding each_selected
  ttsemget core imm tid = (
    set_syncs core
        (record core.syncs { sem = each_selected get_value (field imm 2 8) 8 0 core.syncs.sem }),
    true,
  )
