-- ===== src/Sfpu/Reciprocal.antt =====
-- The approximate reciprocal of SFPARECIP reverses the order of the magnitudes.
use rv32_emu.Base.{
  ℕ, zero, suc, ◌+◌, ◌-◌, ◌*◌, ◌/◌, ◌^◌, ◌≤◌, ◌<◌, ◌≡◌, refl, Bool, true, ◌&&◌, ◌==◌, leb, ltb,
  if◌then◌else◌, arith, Bool-cases, inl, inr, field, List, [], ◌∷◌,
}
use rv32_emu.Base.BitOps.{bit_or_add}
use rv32_emu.Sfpu.Curves.{entry, sfparecip_approx_recip}
use rv32_emu.Sfpu.Tables.{recip_table}

descending : ℕ → List ℕ → Bool
descending bound [] = true
descending bound (v ∷ vs) = leb v bound && descending v vs

entry-le : (bound : ℕ) (vs : List ℕ) (i : ℕ) → descending bound vs ≡ true → entry vs i ≤ bound
unfolding entry descending
entry-le bound [] i d = omega arith
entry-le bound (v ∷ vs) zero d = ground arith
entry-le bound (v ∷ vs) (suc i) d =
    let below : entry vs i ≤ v = entry-le v vs i (ground arith) in ground arith

entry-antitone :
    (bound : ℕ) (vs : List ℕ) (i j : ℕ)
    → descending bound vs ≡ true
    → i ≤ j
    → entry vs j ≤ entry vs i
unfolding entry descending
entry-antitone bound [] i j d h = omega arith
entry-antitone bound (v ∷ vs) zero zero d h = omega arith
entry-antitone bound (v ∷ vs) zero (suc j) d h = entry-le v vs j (ground arith)
entry-antitone bound (v ∷ vs) (suc i) zero d h = absurd (omega arith)
entry-antitone bound (v ∷ vs) (suc i) (suc j) d h =
    entry-antitone v vs i j (ground arith) (omega arith)

table : descending 127 recip_table ≡ true
unfolding descending
table = refl

-- Between the least normal number and 2^126.
abbrev middle : ℕ → ℕ
middle x = (253 - x / 2 ^ 23) * 2 ^ 23 + entry recip_table (field x 16 7) * 2 ^ 16

middle-antitone : (x y : ℕ) → x ≤ y → y < 0x7E800000 → middle y ≤ middle x
middle-antitone x y h k =
    let v : ℕ = entry recip_table (field y 16 7) in
    let u : ℕ = entry recip_table (field x 16 7) in
    let small : v ≤ 127 = entry-le 127 recip_table (field y 16 7) table in
    elim (Bool-cases (x / 2 ^ 23 == y / 2 ^ 23)) [
      | inl same ↦
          let e : x / 2 ^ 23 ≡ y / 2 ^ 23 = ground arith in
          let order : v ≤ u =
            entry-antitone 127 recip_table (field x 16 7) (field y 16 7) table (omega arith) in
          omega arith
      | inr other ↦ let e : x / 2 ^ 23 < y / 2 ^ 23 = ground arith in omega arith
    ]

recip-middle :
    (x : ℕ)
    → sfparecip_approx_recip x
      ≡ (if ltb x 0x00800000 then 0x7F800000 else if ltb x 0x7E800000 then middle x else 0)
unfolding sfparecip_approx_recip
recip-middle x =
    let small : entry recip_table (field x 16 7) ≤ 127 =
      entry-le 127 recip_table (field x 16 7) table in
    rw (bit_or_add 23 (253 - x / 2 ^ 23) (entry recip_table (field x 16 7) * 2 ^ 16) (omega arith))
      refl

-- The approximate reciprocal of SFPARECIP never grows with its argument: of two magnitudes the
-- larger one has the smaller or the same reciprocal, across all exponents, table entries and the
-- ends of the range.
pub sfparecip_approx_recip-antitone :
    (x y : ℕ) → x ≤ y → sfparecip_approx_recip y ≤ sfparecip_approx_recip x
sfparecip_approx_recip-antitone x y h =
    let small : entry recip_table (field y 16 7) ≤ 127 =
      entry-le 127 recip_table (field y 16 7) table in
    rw (recip-middle x, recip-middle y)
      (elim (Bool-cases (ltb y 0x7E800000)) [
        | inl k ↦
            let order : middle y ≤ middle x = middle-antitone x y h (ground arith) in ground arith
        | inr k ↦ ground arith
      ])
