-- ===== src/Driver/Defs.antt =====
-- rv32_run_co: steps of the emulator, with a yield to the other cores after each slice.
use rv32_emu.Base.{
  ℕ, zero, suc, ◌+◌, ℤ, Bool, true, false, ◌&&◌, leb, if◌then◌else◌, Option, some, none, List, [],
  ◌∷◌,
}
use rv32_emu.Mailbox.{Mailbox, process}

-- rv_has_halted and rv_step of rv32emu/, and the callback, on the emulator's state and the mailboxes
-- that its loads and stores reach.
pub record Emulator (E : Type 0) : Type 0 where
  pub halted : E → Bool
  pub step : E → Mailbox → E × Mailbox
  pub yielded : E → Mailbox → E × Mailbox

-- What the loop does, as it is seen from outside: a step, after which the core waits for its mailbox
-- or not, and a yield.
pub data Event : Type 0 where
  stepped : Bool → Event
  gave_way : Event

pub record CoTurn (E : Type 0) : Type 0 where
  pub state : E
  pub boxes : Mailbox
  pub executed : ℕ
  pub stalled : Bool
  pub gave : Bool

module _ {E : Type 0} (emu : Emulator E) (max_instructions : ℕ) (has_tensix : Bool)
    (core_id : ℤ) where
  -- The body of the loop, from the number of steps in the slice. A negative maximum is as 0.
  unfoldable pub co_turn : E → Mailbox → ℕ → CoTurn E
  co_turn e m executed =
      let (e', m') = emu.step e m in
      let (m'', stall) = process m' core_id in
      let stalled = has_tensix && stall in
      let boxes = if has_tensix then m'' else m' in
      let executed' = (if stalled then max_instructions else executed) + 1 in
      let (e3, m3) = emu.yielded e' boxes in
      if leb max_instructions executed'
      then record { state = e3; boxes = m3; executed = 0; stalled = stalled; gave = true }
      else record {
        state = e';
        boxes = boxes;
        executed = executed';
        stalled = stalled;
        gave = false;
      }

  abbrev pub events : CoTurn E → List Event → List Event
  events t rest = stepped t.stalled ∷ (if t.gave then gave_way ∷ rest else rest)

  -- The loop until the core has halted: what it does, and the state in the end; `none` if the fuel
  -- is not enough.
  unfoldable pub co_loop : ℕ → E → Mailbox → ℕ → Option (List Event × (E × Mailbox))
  co_loop zero e m executed = if emu.halted e then some ([], (e, m)) else none
  co_loop (suc fuel) e m executed =
      let t = co_turn e m executed in
      let rest = co_loop fuel t.state t.boxes t.executed in
      if emu.halted e
      then some ([], (e, m))
      else elim rest [ none ↦ none | some (trace, end) ↦ some (events t trace, end) ]

  unfoldable pub rv32_run_co : ℕ → E → Mailbox → Option (List Event × (E × Mailbox))
  unfolding co_loop
  rv32_run_co fuel e m = co_loop fuel e m 0
