-- ===== src/Insn/Thread.antt =====
-- The instructions of the MOP and replay expanders: they change the thread, or its replay buffer.
use rv32_emu.Base.{ℕ, Bool, true, not, ◌==◌, ltb, if◌then◌else◌, update, field}
use rv32_emu.Core.{Core}
use rv32_emu.Cop.{Cop, set_thread, mop_expand}

module _ {D : Type 0} where
  unfoldable pub ttmop_cfg : Cop D → ℕ → ℕ → Cop D × Bool
  ttmop_cfg cop imm tid =
      let idx = field imm 20 4 in
      let value = field imm 0 20 in
      let th = cop.threads tid in
      (
        set_thread cop tid (
            if ltb idx 9
            then record th { mop_cfg = update th.mop_cfg idx value }
            else if idx == 9
            then record th { zmask_hi16 = field value 0 16 }
            else th),
        true,
      )

  unfoldable pub ttmop : Cop D → ℕ → ℕ → Cop D × Bool
  unfolding mop_expand
  ttmop cop imm tid = (mop_expand cop tid imm, true)

  -- Load mode records the next instructions; otherwise the recorded ones are to be played.
  unfoldable pub ttreplay : Core D → ℕ → ℕ → Core D × Bool
  ttreplay core imm tid =
      let r = core.replay tid in
      let start_idx = field imm 14 5 in
      let count = if field imm 4 10 == 0 then 64 else field imm 4 10 in
      let r' =
        if field imm 0 1 == 1
        then record r {
          index = start_idx;
          left = count;
          execute_while_loading = not (field imm 1 1 == 0);
          recording = true;
        }
        else record r {
          expanding = true;
          expand_start = start_idx;
          expand_count = count;
          expand_current = 0;
        } in
      (record core { replay = update core.replay tid r' }, true)
