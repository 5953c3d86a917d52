-- ===== src/Driver/Slices.antt =====
-- The core yields when its slice is full or its mailbox makes it wait, and only then.
use rv32_emu.Base.{
  ℕ, zero, suc, ◌+◌, ◌≡◌, refl, sym, ℤ, Bool, true, false, not, ◌&&◌, ◌||◌, leb, if◌then◌else◌,
  some, subst, List, [], ◌∷◌, Bool-cases, inl, inr, arith,
}
use rv32_emu.Mailbox.{Mailbox, process}
use rv32_emu.Driver.Defs.{
  Emulator, Event, stepped, gave_way, CoTurn, co_turn, events, co_loop, rv32_run_co,
}

-- A run's events from a number of steps in the slice: each step is followed by a yield if it stalled
-- or was the last of the slice, and by a step or the end if not.
unfoldable pub sliced : ℕ → ℕ → List Event → Bool
sliced max n [] = true
sliced max n (gave_way ∷ rest) = false
sliced max n (stepped s ∷ gave_way ∷ rest) = (s || leb max (n + 1)) && sliced max 0 rest
sliced max n (stepped s ∷ []) = not s && not (leb max (n + 1))
sliced max n (stepped s ∷ stepped s' ∷ rest) =
    not s && not (leb max (n + 1)) && sliced max (n + 1) (stepped s' ∷ rest)

-- A turn's events before those of the turns after it.
join :
    (max n executed : ℕ) (s gave : Bool) (trace : List Event)
    → gave ≡ (s || leb max (n + 1))
    → executed ≡ (if gave then 0 else n + 1)
    → sliced max executed trace ≡ true
    → sliced max n (stepped s ∷ (if gave then gave_way ∷ trace else trace)) ≡ true
unfolding sliced
join max n executed s true trace full zero_ ok =
    rw (sym full) (subst (λ (k : ℕ). sliced max k trace ≡ true) zero_ ok)
join max n executed true false trace full next ok = absurd (cc full)
join max n executed false false [] full next ok = rw (sym full) refl
join max n executed false false (gave_way ∷ rest) full next ok = absurd (cc ok)
join max n executed false false (stepped s' ∷ rest) full next ok =
    rw (sym full) (subst (λ (k : ℕ). sliced max k (stepped s' ∷ rest) ≡ true) next ok)

module _ {E : Type 0} (emu : Emulator E) (max : ℕ) (has_tensix : Bool) (core_id : ℤ) where
  co_turn-counts :
      (e : E) (m : Mailbox) (n : ℕ)
      → let t = co_turn emu max has_tensix core_id e m n in
        (t.gave ≡ (t.stalled || leb max (n + 1))) × (t.executed ≡ (if t.gave then 0 else n + 1))
  unfolding co_turn
  co_turn-counts e m n = elim (Bool-cases (has_tensix && (process (emu.step e m).1 core_id).1)) [
    | inl stalls ↦
        let over : leb max (max + 1) ≡ true = ground arith in rw (stalls, over) (refl, refl)
    | inr goes ↦ elim (Bool-cases (leb max (n + 1))) [
      | inl full ↦ rw (goes, full) (refl, refl)
      | inr room ↦ rw (goes, room) (refl, refl)
    ]
  ]

  -- The emulator's state after some turns, halted or not.
  unfoldable pub after : ℕ → E → Mailbox → ℕ → E
  after zero e m n = e
  after (suc k) e m n =
      let t = co_turn emu max has_tensix core_id e m n in after k t.state t.boxes t.executed

  -- What a run gives back.
  record Ends (k : ℕ) (e : E) (m : Mailbox) (n : ℕ) : Type 0 where
    trace : List Event
    end : E × Mailbox
    returns : co_loop emu max has_tensix core_id k e m n ≡ some (trace, end)
    halted_end : emu.halted end.0 ≡ true
    in_slices : sliced max n trace ≡ true

  co_loop-Ends :
      (k : ℕ) (e : E) (m : Mailbox) (n : ℕ) → emu.halted (after k e m n) ≡ true → Ends k e m n
  unfolding co_loop after sliced
  co_loop-Ends zero e m n h = record {
    trace = [];
    end = (e, m);
    returns = rw h refl;
    halted_end = h;
    in_slices = refl;
  }
  co_loop-Ends (suc k) e m n h = elim (Bool-cases (emu.halted e)) [
    | inl stops ↦ record {
      trace = [];
      end = (e, m);
      returns = rw stops refl;
      halted_end = stops;
      in_slices = refl;
    }
    | inr goes ↦
        let t : CoTurn E = co_turn emu max has_tensix core_id e m n in
        let rest = co_loop-Ends k t.state t.boxes t.executed h in
        let (full, count) = co_turn-counts e m n in
        record {
          trace = events emu max has_tensix core_id t rest.trace;
          end = rest.end;
          returns = rw (goes, rest.returns) refl;
          halted_end = rest.halted_end;
          in_slices = join max n t.executed t.stalled t.gave rest.trace full count rest.in_slices;
        }
  ]

  -- If the emulator's state after k turns of the loop of rv32_run_co is halted, k turns of fuel
  -- are enough for the function to return, with a halted core; and in all that it did, each step
  -- of the core was followed by a yield to the others if it stalled at its mailbox or was the
  -- last of a slice of max_instructions steps, and otherwise by the next step or the end.
  pub rv32_run_co-slices :
      (k : ℕ) (e : E) (m : Mailbox)
      → emu.halted (after k e m 0) ≡ true
      → (trace : List Event) × (end : E × Mailbox) × (rv32_run_co emu max has_tensix core_id k e m
          ≡ some (trace, end))
        × (emu.halted end.0 ≡ true)
        × (sliced max 0 trace ≡ true)
  unfolding rv32_run_co
  rv32_run_co-slices k e m h =
      let r = co_loop-Ends k e m 0 h in (r.trace, r.end, r.returns, r.halted_end, r.in_slices)
