-- ===== src/Insn/Handover.antt =====
-- The two banks of an operand go round between the unpackers and the matrix unit in turn: the
-- instructions that hand banks over keep the two bank numbers in step with who owns what.
use rv32_emu.Base.{
  ℕ, zero, suc, ◌-◌, ◌<◌, ◌≡◌, ◌≢◌, refl, sym, ◌∙◌, Bool, true, false, not, ◌&&◌, ◌||◌, update, bit,
  arith, Bool-cases, inl, inr,
}
use rv32_emu.Core.{Core, Banks}
use rv32_emu.Insn.Banks.{
  other_bank, when, free_owned_srca, free_owned_srcb, ttsetdvalid, ttcleardvalid, ttsetrwc,
}

-- `unp` and `math` are the bank numbers of the unpackers and of the matrix unit. They are equal
-- when both banks have one owner; else the matrix unit is at its own bank and the unpackers at
-- theirs.
pub record InStep (dvalid : ℕ → Bool) (unp math : ℕ) : Type 0 where
  pub unp_lt : unp < 2
  pub math_lt : math < 2
  pub one_owner : unp ≡ math → dvalid 0 ≡ dvalid 1
  pub two_owners : unp ≢ math → (dvalid math ≡ true) × (dvalid unp ≡ false)

abbrev pub SrcaInStep : Banks → Type 0
SrcaInStep b = InStep b.srca_dvalid b.unp_srca_bank b.math_srca_bank

abbrev pub SrcbInStep : Banks → Type 0
SrcbInStep b = InStep b.srcb_dvalid b.unp_srcb_bank b.math_srcb_bank

other_bank-eq : (b : ℕ) → b < 2 → other_bank b ≡ 1 - b
other_bank-eq zero h = refl
other_bank-eq (suc zero) h = refl
other_bank-eq (suc (suc b)) h = absurd (omega arith)

pub free-InStep :
    (d : ℕ → Bool) (unp math : ℕ)
    → InStep d unp math
    → d math ≡ true
    → InStep (update d math false) unp (other_bank math)
free-InStep d zero zero h owned = record {
  unp_lt = omega arith;
  math_lt = omega arith;
  one_owner = λ q. absurd (omega arith);
  two_owners = λ q. (sym (h.one_owner refl) ∙ owned, refl);
}
free-InStep d zero (suc zero) h owned = record {
  unp_lt = omega arith;
  math_lt = omega arith;
  one_owner = λ q. (h.two_owners (omega arith)).1;
  two_owners = λ q. absurd (q refl);
}
free-InStep d (suc zero) zero h owned = record {
  unp_lt = omega arith;
  math_lt = omega arith;
  one_owner = λ q. sym (h.two_owners (omega arith)).1;
  two_owners = λ q. absurd (q refl);
}
free-InStep d (suc zero) (suc zero) h owned = record {
  unp_lt = omega arith;
  math_lt = omega arith;
  one_owner = λ q. absurd (omega arith);
  two_owners = λ q. (h.one_owner refl ∙ owned, refl);
}
free-InStep d (suc (suc u)) math h owned = absurd (omega (arith, h.unp_lt))
free-InStep d unp (suc (suc m)) h owned = absurd (omega (arith, h.math_lt))

give-InStep :
    (d : ℕ → Bool) (unp math : ℕ)
    → InStep d unp math
    → d unp ≡ false
    → InStep (update d unp true) (other_bank unp) math
give-InStep d zero zero h free = record {
  unp_lt = omega arith;
  math_lt = omega arith;
  one_owner = λ q. absurd (omega arith);
  two_owners = λ q. (refl, sym (h.one_owner refl) ∙ free);
}
give-InStep d zero (suc zero) h free = record {
  unp_lt = omega arith;
  math_lt = omega arith;
  one_owner = λ q. sym (h.two_owners (omega arith)).0;
  two_owners = λ q. absurd (q refl);
}
give-InStep d (suc zero) zero h free = record {
  unp_lt = omega arith;
  math_lt = omega arith;
  one_owner = λ q. (h.two_owners (omega arith)).0;
  two_owners = λ q. absurd (q refl);
}
give-InStep d (suc zero) (suc zero) h free = record {
  unp_lt = omega arith;
  math_lt = omega arith;
  one_owner = λ q. absurd (omega arith);
  two_owners = λ q. (refl, h.one_owner refl ∙ free);
}
give-InStep d (suc (suc u)) math h free = absurd (omega (arith, h.unp_lt))
give-InStep d unp (suc (suc m)) h free = absurd (omega (arith, h.math_lt))

-- A bank that the matrix unit does not own cannot be freed and leave the numbers in step.
free-out_of_step :
    (d : ℕ → Bool) (unp math : ℕ)
    → InStep d unp math
    → d math ≡ false
    → ¬ InStep (update d math false) unp (other_bank math)
free-out_of_step d zero zero h free k =
    absurd (cc ((k.two_owners (omega arith)).0, h.one_owner refl, free))
free-out_of_step d zero (suc zero) h free k = absurd (cc ((h.two_owners (omega arith)).0, free))
free-out_of_step d (suc zero) zero h free k = absurd (cc ((h.two_owners (omega arith)).0, free))
free-out_of_step d (suc zero) (suc zero) h free k =
    absurd (cc ((k.two_owners (omega arith)).0, h.one_owner refl, free))
free-out_of_step d (suc (suc u)) math h free k = absurd (omega (arith, h.unp_lt))
free-out_of_step d unp (suc (suc m)) h free k = absurd (omega (arith, h.math_lt))

-- Both operands.
pub record IsInStep (b : Banks) : Type 0 where
  pub srca : SrcaInStep b
  pub srcb : SrcbInStep b

free_owned-IsInStep :
    (b : Banks) → IsInStep b → IsInStep (free_owned_srca b) × IsInStep (free_owned_srcb b)
free_owned-IsInStep b h = (
  elim (Bool-cases (b.srca_dvalid b.math_srca_bank)) [
    | inl owned ↦ simp owned (record { srca = free-InStep _ _ _ h.srca owned; srcb = h.srcb })
    | inr free ↦ simp free h
  ],
  elim (Bool-cases (b.srcb_dvalid b.math_srcb_bank)) [
    | inl owned ↦ simp owned (record { srca = h.srca; srcb = free-InStep _ _ _ h.srcb owned })
    | inr free ↦ simp free h
  ],
)

pub when-IsInStep :
    (test : Bool) (f : Banks → Banks) (b : Banks)
    → IsInStep b
    → IsInStep (f b)
    → IsInStep (when test f b)
when-IsInStep true f b h k = k
when-IsInStep false f b h k = h

module _ {D : Type 0} (core : Core D) (imm tid : ℕ) where
  -- SETRWC, whatever its bits and whether or not it completes, keeps the bank numbers of the
  -- unpackers and of the matrix unit in step with who owns which bank, for SrcA and for SrcB.
  pub ttsetrwc-IsInStep : IsInStep core.banks → IsInStep (ttsetrwc core imm tid).0.banks
  unfolding ttsetrwc
  ttsetrwc-IsInStep h =
      let b : Banks = core.banks in
      elim (Bool-cases (
        bit imm 22 && not (b.srca_dvalid b.math_srca_bank)
        || bit imm 23 && not (b.srcb_dvalid b.math_srcb_bank))) [
          | inl waits ↦ simp waits h
          | inr goes ↦
              let a_done =
                when-IsInStep (bit imm 22) free_owned_srca b h (free_owned-IsInStep b h).0 in
              simp goes (
                when-IsInStep (bit imm 23) free_owned_srcb _ a_done
                  (free_owned-IsInStep _ a_done).1)
        ]

  -- SETDVALID keeps the bank numbers in step with the owners for both operands, if each bank
  -- that it hands over is the unpackers'.
  pub ttsetdvalid-IsInStep :
      IsInStep core.banks
      → (bit imm 0 ≡ true → core.banks.srca_dvalid core.banks.unp_srca_bank ≡ false)
      → (bit imm 1 ≡ true → core.banks.srcb_dvalid core.banks.unp_srcb_bank ≡ false)
      → IsInStep (ttsetdvalid core imm tid).0.banks
  unfolding ttsetdvalid
  ttsetdvalid-IsInStep h free_a free_b = elim (Bool-cases (bit imm 0)) [
    | inl a ↦ elim (Bool-cases (bit imm 1)) [
      | inl b ↦
          simp (a, b)
            (record {
              srca = give-InStep _ _ _ h.srca (free_a a);
              srcb = give-InStep _ _ _ h.srcb (free_b b);
            })
      | inr no_b ↦
          simp (a, no_b) (record { srca = give-InStep _ _ _ h.srca (free_a a); srcb = h.srcb })
    ]
    | inr no_a ↦ elim (Bool-cases (bit imm 1)) [
      | inl b ↦
          simp (no_a, b) (record { srca = h.srca; srcb = give-InStep _ _ _ h.srcb (free_b b) })
      | inr no_b ↦ simp (no_a, no_b) h
    ]
  ]

  -- CLEARDVALID that flips SrcA without a reset, while the matrix unit's SrcA bank is not its
  -- own, puts bank numbers that were in step with the owners out of step.
  pub ttcleardvalid-srca :
      IsInStep core.banks
      → core.banks.srca_dvalid core.banks.math_srca_bank ≡ false
      → bit imm 0 ≡ false
      → bit imm 22 ≡ true
      → ¬ IsInStep (ttcleardvalid core imm tid).0.banks
  unfolding ttcleardvalid
  ttcleardvalid-srca h free keeps flips = elim (Bool-cases (bit imm 23)) [
    | inl b ↦ simp (keeps, flips, b) (λ k. free-out_of_step _ _ _ h.srca free k.srca)
    | inr no_b ↦ simp (keeps, flips, no_b) (λ k. free-out_of_step _ _ _ h.srca free k.srca)
  ]
