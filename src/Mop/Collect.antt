-- ===== src/Mop/Collect.antt =====
-- Calling the generator until it has nothing more: what one call does to a list of instructions
-- still to come, and the list that all the calls hand out.
use rv32_emu.Base.{
  ℕ, zero, suc, ◌≤◌, ◌≡◌, refl, ap, Bool, true, false, Option, none, some, List, [], ◌∷◌, length,
  arith,
}
use rv32_emu.Mop.Defs.{MopState, generate_next}

-- A call hands out the first instruction of the `view`, or ends the expansion when it is empty.
pub data Yields (view : MopState → List ℕ) (Valid : MopState → Type 0) (st : MopState)
    (r : Option (Option ℕ × MopState)) : Type 0 where
  finished :
      (st' : MopState)
      → r ≡ some (none, st')
      → st'.active ≡ false
      → view st ≡ []
      → Yields view Valid st r
  yielded :
      (x : ℕ) (st' : MopState)
      → r ≡ some (some x, st')
      → view st ≡ x ∷ view st'
      → Valid st'
      → Yields view Valid st r

-- At most `n` calls; the expansion state when they are made, and whether the last call said that
-- there is no more.
unfoldable pub collect : ℕ → (ℕ → ℕ) → MopState → List ℕ × Bool
collect zero cfg st = ([], false)
collect (suc n) cfg st = elim (generate_next cfg st) [
  | none ↦ ([], false)
  | some (none, st') ↦ ([], true)
  | some (some x, st') ↦ let (xs, ended) = collect n cfg st' in (x ∷ xs, ended)
]

module _ (cfg : ℕ → ℕ) {view : MopState → List ℕ} {Valid : MopState → Type 0}
    (call : (st : MopState) → Valid st → Yields view Valid st (generate_next cfg st)) where
  -- One call more than there are instructions hands out all of them and the end.
  pub collect-view :
      (n : ℕ) (st : MopState)
      → Valid st
      → suc (length (view st)) ≤ n
      → collect n cfg st ≡ (view st, true)
  unfolding collect
  collect-view zero st v h = absurd (omega arith)
  collect-view (suc n) st v h = by_call (λ st' v' k. collect-view n st' v' k) (call st v)
    where
      by_call :
          ((st' : MopState)
            → Valid st'
            → suc (length (view st')) ≤ n
            → collect n cfg st' ≡ (view st', true))
          → Yields view Valid st (generate_next cfg st)
          → collect (suc n) cfg st ≡ (view st, true)
      by_call rec (finished st' found over empty) = rw (collect, found, empty) refl
      by_call rec (yielded x st' found words v') =
          rw (collect, found, words, rec st' v' (omega (arith, ap length words))) refl
