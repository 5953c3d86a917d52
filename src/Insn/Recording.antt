-- ===== src/Insn/Recording.antt =====
-- What REPLAY in load mode records, where replay mode then finds it.
use rv32_emu.Base.{
  ℕ, suc, ◌+◌, ◌-◌, ◌%◌, ◌^◌, ◌≤◌, ◌<◌, ◌≡◌, refl, sym, some, ap, ◌∙◌, Bool, true, false, not, ◌==◌,
  List, [], ◌∷◌, if◌then◌else◌, ◌++◌, append_assoc, length, update_self, u32, field, arith,
}
use rv32_emu.Base.Ring.{window, window-push, window_cong}
use rv32_emu.Core.{Core, Replay}
use rv32_emu.Gate.{insn_opcode}
use rv32_emu.Cop.{Cop, record_insn, direct_insn_step, set_replay, finish}
use rv32_emu.Cop.Executor.{Executor}
use rv32_emu.Insn.Thread.{ttreplay}

-- One instruction after another, none a MOP_CFG, at the test of the flag: each is recorded only
-- while it is set.
unfoldable pub record_all : Replay → List ℕ → Replay
unfolding record_insn
record_all r [] = r
record_all r (insn ∷ insns) = record_all (if r.recording then record_insn r insn else r) insns

record_all-on :
    (r : Replay) (x : ℕ) (xs : List ℕ)
    → r.recording ≡ true
    → record_all r (x ∷ xs) ≡ record_all (record_insn r x) xs
unfolding record_all
record_all-on r x xs on = rw (record_all, on) refl

record_all-off : (r : Replay) (xs : List ℕ) → r.recording ≡ false → record_all r xs ≡ r
unfolding record_all
record_all-off r [] off = refl
record_all-off r (x ∷ xs) off =
    ap (λ (b : Bool). record_all (if b then record_insn r x else r) xs) off
    ∙ record_all-off r xs off

-- Recording goes on while more than this instruction is left.
record_insn-recording :
    (r : Replay) (x n : ℕ)
    → r.recording ≡ true
    → r.left ≡ suc (suc n)
    → n < 32
    → (record_insn r x).recording ≡ true
unfolding record_insn
record_insn-recording r x n on left few =
    let more : (u32 (r.left + 2 ^ 32 - 1) == 0) ≡ false = ground arith in rw more on

record_insn-last : (r : Replay) (x : ℕ) → r.left ≡ 1 → (record_insn r x).recording ≡ false
unfolding record_insn
record_insn-last r x left =
    let last : (u32 (r.left + 2 ^ 32 - 1) == 0) ≡ true = ground arith in rw last refl

record_insn-left : (r : Replay) (x n : ℕ) → r.left ≡ suc n → n < 32 → (record_insn r x).left ≡ n
unfolding record_insn
record_insn-left r x n left few = omega (arith, left)

record_insn-index :
    (r : Replay) (x n h : ℕ)
    → r.index % 32 ≡ (h + n) % 32
    → (record_insn r x).index % 32 ≡ (h + suc n) % 32
unfolding record_insn
record_insn-index r x n h at = omega (arith, at)

-- The word goes behind those recorded so far.
behind :
    (r : Replay) (x : ℕ) (ws : List ℕ) (n h : ℕ)
    → h < 32
    → n < 32
    → r.index % 32 ≡ (h + n) % 32
    → window 32 n h r.buffer ≡ ws
    → window 32 (suc n) h (record_insn r x).buffer ≡ ws ++ (x ∷ [])
unfolding record_insn
behind r x ws n h hl room at e =
    window-push 32 n h (r.index % 32) r.buffer x hl room at ∙ ap (λ q. q ++ (x ∷ [])) e

-- What a recording of as many words as are left leaves: they are behind those recorded before,
-- the recording has ended, and whatever comes then changes nothing.
record_all-window :
    (r : Replay) (x : ℕ) (xs ys ws : List ℕ) (n h : ℕ)
    → r.recording ≡ true
    → r.left ≡ length (x ∷ xs)
    → h < 32
    → n + length (x ∷ xs) ≤ 32
    → r.index % 32 ≡ (h + n) % 32
    → window 32 n h r.buffer ≡ ws
    → (window 32 (n + length (x ∷ xs)) h (record_all r ((x ∷ xs) ++ ys)).buffer ≡ ws ++ (x ∷ xs))
      × ((record_all r ((x ∷ xs) ++ ys)).recording ≡ false)
record_all-window r x [] ys ws n h on left hl room at e =
    let off = record_insn-last r x left in
    rw (record_all-on r x ys on, record_all-off (record_insn r x) ys off)
      (window_cong 32 (omega arith) refl refl ∙ behind r x ws n h hl (omega arith) at e, off)
record_all-window r x (z ∷ zs) ys ws n h on left hl room at e =
    let (words, off) =
      record_all-window (record_insn r x) z zs ys (ws ++ (x ∷ [])) (suc n) h
        (record_insn-recording r x (length zs) on left (omega arith))
        (record_insn-left r x (length (z ∷ zs)) left (omega arith)) hl (omega arith)
        (record_insn-index r x n h at) (behind r x ws n h hl (omega arith) at e) in
    rw (record_all-on r x ((z ∷ zs) ++ ys) on) (
      window_cong 32 {n' = suc n + length (z ∷ zs)} (omega arith) refl refl
          ∙ words
          ∙ append_assoc ws (x ∷ []) (z ∷ zs),
      off,
    )

-- One turn of the direct path, for an instruction other than MOP_CFG while the recording is on and
-- does not execute what it records: it is taken, and the replay buffer of the thread is as
-- `record_all` says.
direct_insn_step-record_all :
    {D : Type 0} (ex : Executor D) (fuel t : ℕ) (cop : Cop D)
    → (insn_opcode (cop.threads t).direct_insn == 0x03) ≡ false
    → (cop.core.replay t).recording ≡ true
    → (cop.core.replay t).execute_while_loading ≡ false
    → (after : Cop D) × (direct_insn_step ex fuel cop t ≡ some (after, true))
      × (after.core.replay t ≡ record_all (cop.core.replay t) ((cop.threads t).direct_insn ∷ []))
unfolding direct_insn_step record_all
direct_insn_step-record_all ex fuel t cop plain on quiet =
    let insn : ℕ = (cop.threads t).direct_insn in
    let recorded : Cop _ = set_replay cop t (record_insn (cop.core.replay t) insn) in
    (
      finish recorded t,
      rw (direct_insn_step, plain, on, quiet) refl,
      update_self cop.core.replay t (record_insn (cop.core.replay t) insn)
          ∙ sym (record_all-on (cop.core.replay t) insn [] on),
    )

module _ {D : Type 0} (core : Core D) (imm tid : ℕ) (load : field imm 0 1 ≡ 1) where
  abbrev loaded : Replay
  loaded = record (core.replay tid) {
    index = field imm 14 5;
    left = field imm 4 10;
    execute_while_loading = not (field imm 1 1 == 0);
    recording = true;
  }

  ttreplay-load : 0 < field imm 4 10 → (ttreplay core imm tid).0.replay tid ≡ loaded
  unfolding ttreplay
  ttreplay-load some_words =
      let counted : (field imm 4 10 == 0) ≡ false = ground arith in
      simp (load, counted) (update_self core.replay tid loaded)

  -- After a REPLAY in load mode for between 1 and 32 instructions, the words that reach the test
  -- of the recording flag next, as many as it asks for, are in the replay buffer in order, from
  -- the slot that the instruction names on and around the end of the 32; the recording has ended
  -- with the last of them, and whatever words follow are not recorded.
  pub record_all-ttreplay :
      (xs ys : List ℕ)
      → field imm 4 10 ≡ length xs
      → 0 < length xs
      → length xs ≤ 32
      → let replayed = record_all ((ttreplay core imm tid).0.replay tid) (xs ++ ys) in
        (window 32 (length xs) (field imm 14 5) replayed.buffer ≡ xs) × (replayed.recording ≡ false)
  record_all-ttreplay [] ys count some_words few = absurd (omega arith)
  record_all-ttreplay (x ∷ xs) ys count some_words few =
      let (words, off) =
        record_all-window loaded x xs ys [] 0 (field imm 14 5) refl count (omega arith)
          (omega arith) (omega arith) window-none in
      rw (ttreplay-load (omega (arith, count)))
        (window_cong 32 {n' = 0 + length (x ∷ xs)} (omega arith) refl refl ∙ words, off)
    where
      window-none : window 32 0 (field imm 14 5) loaded.buffer ≡ []
      window-none = unfold window in refl
