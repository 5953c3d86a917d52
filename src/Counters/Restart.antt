-- ===== src/Counters/Restart.antt =====
-- A restart takes a counter back to its checkpoint, however far it has been moved since.
use rv32_emu.Base.{
  ℕ, ◌+◌, ◌*◌, ◌<◌, ◌≡◌, ◌≢◌, ◌⊎◌, Bool, refl, ap, ◌∙◌, true, false, List, [], ◌∷◌, if◌then◌else◌,
  field, bit, u32, arith, zero, suc,
}
use rv32_emu.Base.Selected.{each_selected-in}
use rv32_emu.Core.{Core, Counters}
use rv32_emu.Counters.Defs.{
  apply_if, restart_counter, inc_pair, restart_pair, each_unit, ttincadcxy, ttaddrcrxy, ttincadczw,
  ttaddrcrzw,
}

-- The X and Y counters, or the Z and W counters, with their two instructions.
pub data Pair : Type 0 where
  xy zw : Pair

abbrev pub low : Pair → ℕ
low xy = 0
low zw = 2

keeps_cr : (b : Bool) (l imm : ℕ) (a : Counters) → (if b then inc_pair l imm a else a).cr ≡ a.cr
keeps_cr true l imm a = refl
keeps_cr false l imm a = refl

module _ {D : Type 0} where
  pub increment : Pair → Core D → ℕ → ℕ → Core D
  increment xy core imm tid = (ttincadcxy core imm tid).0
  increment zw core imm tid = (ttincadczw core imm tid).0

  pub restart : Pair → Core D → ℕ → ℕ → Core D
  restart xy core imm tid = (ttaddrcrxy core imm tid).0
  restart zw core imm tid = (ttaddrcrzw core imm tid).0

  -- A sequence of increments.
  pub increments : Pair → Core D → List ℕ → ℕ → Core D
  increments p core [] tid = core
  increments p core (imm ∷ imms) tid = increments p (increment p core imm tid) imms tid

  -- What a loop over the units makes of one of them.
  each_unit-at :
      (f : Counters → Counters) (core : Core D) (imm u : ℕ)
      → u < 3
      → (each_unit f core imm).0.counters u
        ≡ (if bit (field imm 21 3) u then f (core.counters u) else core.counters u)
  each_unit-at f core imm u h =
      each_selected-in f (field imm 21 3) 3 0 core.counters u (omega arith) (omega arith)

  restart-at :
      (p : Pair) (core : Core D) (imm tid u : ℕ)
      → u < 3
      → bit (field imm 21 3) u ≡ true
      → (restart p core imm tid).counters u ≡ restart_pair (low p) imm (core.counters u)
  unfolding restart ttaddrcrxy ttaddrcrzw
  restart-at xy core imm tid u h sel = each_unit-at (restart_pair 0 imm) core imm u h ∙ rw sel refl
  restart-at zw core imm tid u h sel = each_unit-at (restart_pair 2 imm) core imm u h ∙ rw sel refl

  increment-cr :
      (p : Pair) (core : Core D) (imm tid u : ℕ)
      → u < 3
      → ((increment p core imm tid).counters u).cr ≡ (core.counters u).cr
  unfolding increment ttincadcxy ttincadczw
  increment-cr xy core imm tid u h =
      ap (λ (a : Counters). a.cr) (each_unit-at (inc_pair 0 imm) core imm u h)
      ∙ keeps_cr (bit (field imm 21 3) u) 0 imm (core.counters u)
  increment-cr zw core imm tid u h =
      ap (λ (a : Counters). a.cr) (each_unit-at (inc_pair 2 imm) core imm u h)
      ∙ keeps_cr (bit (field imm 21 3) u) 2 imm (core.counters u)

  increments-cr :
      (p : Pair) (core : Core D) (imms : List ℕ) (tid u : ℕ)
      → u < 3
      → ((increments p core imms tid).counters u).cr ≡ (core.counters u).cr
  unfolding increments
  increments-cr p core [] tid u h = refl
  increments-cr p core (imm ∷ imms) tid u h =
      increments-cr p (increment p core imm tid) imms tid u h ∙ increment-cr p core imm tid u h

-- A counter that a restart of another one leaves alone.
other_counter :
    (b : Bool) (c d inc : ℕ) (a : Counters) (c' d' : ℕ)
    → (c' ≢ c) ⊎ (d' ≢ d)
    → ((apply_if b (restart_counter c d inc) a).value c' d' ≡ a.value c' d')
      × ((apply_if b (restart_counter c d inc) a).cr c' d' ≡ a.cr c' d')
other_counter true c d inc a c' d' h = (ground arith, ground arith)
other_counter false c d inc a c' d' h = (refl, refl)

this_counter :
    (b : Bool) (c d inc : ℕ) (a : Counters)
    → b ≡ true
    → ((apply_if b (restart_counter c d inc) a).value c d ≡ u32 (a.cr c d + inc))
      × ((apply_if b (restart_counter c d inc) a).cr c d ≡ u32 (a.cr c d + inc))
this_counter true c d inc a e = (ground arith, ground arith)
this_counter false c d inc a e = cc

-- The units after each of the first turns of `restart_pair`.
abbrev after1 : ℕ → ℕ → Counters → Counters
after1 l imm a = apply_if (bit imm 0) (restart_counter 0 l (field imm 6 3)) a

abbrev after2 : ℕ → ℕ → Counters → Counters
after2 l imm a = apply_if (bit imm 1) (restart_counter 0 (l + 1) (field imm 9 3)) (after1 l imm a)

abbrev after3 : ℕ → ℕ → Counters → Counters
after3 l imm a = apply_if (bit imm 2) (restart_counter 1 l (field imm 12 3)) (after2 l imm a)

-- The counter and its checkpoint that a restart of a unit leaves.
restart_pair-at :
    (l imm c d : ℕ) (a : Counters)
    → c < 2
    → d < 2
    → bit imm (2 * c + d) ≡ true
    → ((restart_pair l imm a).value c (l + d)
        ≡ u32 (a.cr c (l + d) + field imm (6 + 3 * (2 * c + d)) 3))
      × ((restart_pair l imm a).cr c (l + d)
          ≡ u32 (a.cr c (l + d) + field imm (6 + 3 * (2 * c + d)) 3))
restart_pair-at l imm zero zero a h k sel = grind (
  arith,
  this_counter (bit imm 0) 0 l (field imm 6 3) a sel,
  other_counter (bit imm 1) 0 (l + 1) (field imm 9 3) (after1 l imm a) 0 l,
  other_counter (bit imm 2) 1 l (field imm 12 3) (after2 l imm a) 0 l,
  other_counter (bit imm 3) 1 (l + 1) (field imm 15 3) (after3 l imm a) 0 l,
)
restart_pair-at l imm zero (suc zero) a h k sel = grind (
  arith,
  other_counter (bit imm 0) 0 l (field imm 6 3) a 0 (l + 1),
  this_counter (bit imm 1) 0 (l + 1) (field imm 9 3) (after1 l imm a) sel,
  other_counter (bit imm 2) 1 l (field imm 12 3) (after2 l imm a) 0 (l + 1),
  other_counter (bit imm 3) 1 (l + 1) (field imm 15 3) (after3 l imm a) 0 (l + 1),
)
restart_pair-at l imm (suc zero) zero a h k sel = grind (
  arith,
  other_counter (bit imm 0) 0 l (field imm 6 3) a 1 l,
  other_counter (bit imm 1) 0 (l + 1) (field imm 9 3) (after1 l imm a) 1 l,
  this_counter (bit imm 2) 1 l (field imm 12 3) (after2 l imm a) sel,
  other_counter (bit imm 3) 1 (l + 1) (field imm 15 3) (after3 l imm a) 1 l,
)
restart_pair-at l imm (suc zero) (suc zero) a h k sel = grind (
  arith,
  other_counter (bit imm 0) 0 l (field imm 6 3) a 1 (l + 1),
  other_counter (bit imm 1) 0 (l + 1) (field imm 9 3) (after1 l imm a) 1 (l + 1),
  other_counter (bit imm 2) 1 l (field imm 12 3) (after2 l imm a) 1 (l + 1),
  this_counter (bit imm 3) 1 (l + 1) (field imm 15 3) (after3 l imm a) sel,
)
restart_pair-at l imm c (suc (suc d)) a h k sel = absurd (omega arith)
restart_pair-at l imm (suc (suc c)) d a h k sel = absurd (omega arith)

-- After any sequence of INCADCXY (or INCADCZW) instructions, an ADDRCRXY (or ADDRCRZW) that
-- selects a unit and a counter leaves that counter and its checkpoint at the checkpoint from
-- before the sequence plus the instruction's own amount, modulo 2^32.
pub restart-increments :
    {D : Type 0} (p : Pair) (core : Core D) (imms : List ℕ) (imm tid tid' u c d : ℕ)
    → u < 3
    → c < 2
    → d < 2
    → bit (field imm 21 3) u ≡ true
    → bit imm (2 * c + d) ≡ true
    → ((((restart p (increments p core imms tid) imm tid').counters u).value c (low p + d)
        ≡ u32 ((core.counters u).cr c (low p + d) + field imm (6 + 3 * (2 * c + d)) 3)))
      × (((restart p (increments p core imms tid) imm tid').counters u).cr c (low p + d)
          ≡ u32 ((core.counters u).cr c (low p + d) + field imm (6 + 3 * (2 * c + d)) 3))
restart-increments p core imms imm tid tid' u c d h k l sel sel' =
    let start : Counters = (increments p core imms tid).counters u in
    let (value, cr) = restart_pair-at (low p) imm c d start k l sel' in
    let same : u32 (start.cr c (low p + d) + field imm (6 + 3 * (2 * c + d)) 3)
        ≡ u32 ((core.counters u).cr c (low p + d) + field imm (6 + 3 * (2 * c + d)) 3) =
      ap (λ (f : ℕ → ℕ → ℕ). u32 (f c (low p + d) + field imm (6 + 3 * (2 * c + d)) 3))
        (increments-cr p core imms tid u h) in
    rw (restart-at p (increments p core imms tid) imm tid' u h sel) (value ∙ same, cr ∙ same)
