-- ===== src/Base/Selected.antt =====
-- A loop over the entries of an array that a mask selects, and what it makes of each of them.
use native.Mathlib.Decide.{ℕ_discrete}
use Prim.Native.Nat.{ℕ, zero, suc, ◌+◌, ◌≤◌, ◌<◌}
use mathlib.Core.Path.{◌≡◌, refl, sym, ap, ◌∙◌}
use mathlib.Core.Logic.{◌≢◌, inl, inr}
use native.Mathlib.Omega.{arith}
use rv32_emu.Base.Tests.{if◌then◌else◌, Bool-cases}
use rv32_emu.Base.Arrays.{update, update_self, update-ne}
use rv32_emu.Base.Word.{bit}

-- `for (i = from; i < from + n; i++) if (mask & (1 << i)) a[i] = f(a[i]);`
unfoldable pub each_selected : {A : Type 0} → (A → A) → ℕ → ℕ → ℕ → (ℕ → A) → ℕ → A
each_selected f mask zero from a = a
each_selected f mask (suc n) from a =
    let a' = if bit mask from then update a from (f (a from)) else a in
    each_selected f mask n (suc from) a'

-- The entry of the first index, and those of the rest, after the first turn.
first_turn : {A : Type 0} → (A → A) → ℕ → ℕ → (ℕ → A) → ℕ → A
first_turn f mask from a = if bit mask from then update a from (f (a from)) else a

first_turn-ne :
    {A : Type 0} (f : A → A) (mask from : ℕ) (a : ℕ → A) (i : ℕ)
    → i ≢ from
    → first_turn f mask from a i ≡ a i
unfolding first_turn
first_turn-ne f mask from a i ne = elim (Bool-cases (bit mask from)) [
  | inl sel ↦ rw sel (update-ne a from i (f (a from)) ne)
  | inr unsel ↦ rw unsel refl
]

first_turn_self :
    {A : Type 0} (f : A → A) (mask from : ℕ) (a : ℕ → A)
    → first_turn f mask from a from ≡ (if bit mask from then f (a from) else a from)
unfolding first_turn
first_turn_self f mask from a = elim (Bool-cases (bit mask from)) [
  | inl sel ↦ rw sel (update_self a from (f (a from)))
  | inr unsel ↦ rw unsel refl
]

-- An index below the loop, and one in it.
each_selected-below :
    {A : Type 0} (f : A → A) (mask n from : ℕ) (a : ℕ → A) (i : ℕ)
    → i < from
    → each_selected f mask n from a i ≡ a i
unfolding each_selected first_turn
each_selected-below f mask zero from a i h = refl
each_selected-below f mask (suc n) from a i h =
    each_selected-below f mask n (suc from) (first_turn f mask from a) i (omega arith)
    ∙ first_turn-ne f mask from a i (omega arith)

pub each_selected-in :
    {A : Type 0} (f : A → A) (mask n from : ℕ) (a : ℕ → A) (i : ℕ)
    → from ≤ i
    → i < from + n
    → each_selected f mask n from a i ≡ (if bit mask i then f (a i) else a i)
unfolding each_selected first_turn
each_selected-in f mask zero from a i h k = absurd (omega arith)
each_selected-in {A} f mask (suc n) from a i h k = elim (ℕ_discrete from i) [
  | yes e ↦
      each_selected-below f mask n (suc from) (first_turn f mask from a) i (omega arith)
      ∙ ap (first_turn f mask from a) (sym e)
      ∙ first_turn_self f mask from a
      ∙ ap (λ (j : ℕ). if bit mask j then f (a j) else a j) e
  | no ne ↦
      each_selected-in f mask n (suc from) (first_turn f mask from a) i (omega arith) (omega arith)
      ∙ ap (λ (v : A). if bit mask i then f v else v) (first_turn-ne f mask from a i (ground arith))
]
