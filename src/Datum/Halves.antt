-- ===== src/Datum/Halves.antt =====
-- Floats of 16 bits, to 32 bits and back.
use rv32_emu.Base.{
  ℕ, zero, suc, ◌+◌, ◌-◌, ◌*◌, ◌^◌, ◌≤◌, ◌<◌, ◌≡◌, refl, sym, ap, ◌∙◌, true, false, ◌==◌, leb,
  if◌then◌else◌, field, bit, u32, bit_or, arith, Bool-cases, inl, inr,
}
use native.Mathlib.Nat.{mul_assoc, mul_comm, pow-suc}
use rv32_emu.Base.BitOps.{bit_or_add}
use rv32_emu.Datum.Defs.{
  get_datum_size, Casts, normalise, pack32, pack16, half_to_float, float_to_half, datum_to_float,
  float_to_datum,
}

-- The loop ends at a first bit, after at most as many turns as it has fuel.
normalise_lem :
    (k m e : ℕ)
    → m < 2 ^ 11
    → 2 ^ 10 ≤ m * 2 ^ k
    → k ≤ u32 (e + 112)
    → (u32 ((normalise k m e).1 + 112) ≤ u32 (e + 112))
      × (u32 (e + 112) ≤ u32 ((normalise k m e).1 + 112) + k)
      × (2 ^ 10 ≤ (normalise k m e).0)
unfolding normalise
normalise_lem zero m e h big room = (omega arith, omega arith, omega arith)
normalise_lem (suc k) m e h big room = elim (Bool-cases (bit m 10)) [
  | inl stop ↦ rw stop (omega arith, omega arith, ground arith)
  | inr go ↦
      let small : m < 2 ^ 10 = ground arith in
      let next : u32 (m * 2) ≡ m * 2 = omega arith in
      let power : m * 2 * 2 ^ k ≡ m * 2 ^ suc k =
        mul_assoc m 2 (2 ^ k) ∙ ap (λ (t : ℕ). m * t) (mul_comm 2 (2 ^ k) ∙ sym (pow-suc 2 k)) in
      let down : u32 (u32 (e + (2 ^ 32 - 1)) + 112) + 1 ≡ u32 (e + 112) = omega arith in
      let (below, above, first) =
        normalise_lem k (m * 2) (u32 (e + (2 ^ 32 - 1))) (omega arith) (omega (arith, power))
          (omega arith) in
      rw (go, next) (omega arith, omega arith, first)
]

-- The packed fields, and what they give back.
pack32-sum :
    (s e m : ℕ)
    → e < 2 ^ 8
    → m < 2 ^ 10
    → s < 2
    → pack32 s e m ≡ s * 2 ^ 31 + e * 2 ^ 23 + m * 2 ^ 13
pack32-sum s e m h k l =
    let high : u32 (e * 2 ^ 23) ≡ e * 2 ^ 23 = omega arith in
    let low : u32 (m * 2 ^ 13) ≡ m * 2 ^ 13 = omega arith in
    let two : bit_or (s * 2 ^ 31) (e * 2 ^ 23) ≡ (s * 2 ^ 8 + e) * 2 ^ 23 =
      bit_or_add 31 s (e * 2 ^ 23) (omega arith) ∙ omega arith in
    rw (high, low, two) (bit_or_add 23 (s * 2 ^ 8 + e) (m * 2 ^ 13) (omega arith) ∙ omega arith)

pack16-sum : (s e m : ℕ) → e < 2 ^ 5 → m < 2 ^ 10 → pack16 s e m ≡ s * 2 ^ 15 + e * 2 ^ 10 + m
pack16-sum s e m h k =
    let two : bit_or (s * 2 ^ 15) (e * 2 ^ 10) ≡ (s * 2 ^ 5 + e) * 2 ^ 10 =
      bit_or_add 15 s (e * 2 ^ 10) (omega arith) ∙ omega arith in
    rw two (bit_or_add 10 (s * 2 ^ 5 + e) m k ∙ omega arith)

-- The conversion back of a packed float.
abbrev back : ℕ → ℕ → ℕ → ℕ
back s e m =
    if e == 0
    then s * 2 ^ 15
    else if e == 255
    then pack16 s 31 m
    else if leb e 112
    then s * 2 ^ 15
    else if leb 143 e
    then pack16 s 31 0
    else pack16 s (e - 112) m

float_to_half-pack32 :
    (s e m : ℕ) → s < 2 → e < 2 ^ 8 → m < 2 ^ 10 → float_to_half (pack32 s e m) ≡ back s e m
unfolding float_to_half
float_to_half-pack32 s e m h k l =
    let sum : ℕ = s * 2 ^ 31 + e * 2 ^ 23 + m * 2 ^ 13 in
    let sign : field sum 31 1 ≡ s = omega arith in
    let exp : field sum 23 8 ≡ e = omega arith in
    let mant : field sum 13 10 ≡ m = omega arith in
    rw (pack32-sum s e m k l h, sign, exp, mant) refl

back-flushed : (s e m : ℕ) → 0 < e → e ≤ 112 → back s e m ≡ s * 2 ^ 15
back-flushed s e m h k =
    let not_zero : (e == 0) ≡ false = ground arith in
    let not_top : (e == 255) ≡ false = ground arith in
    let flushed : leb e 112 ≡ true = ground arith in rw (not_zero, not_top, flushed) refl

back-finite : (s e m : ℕ) → 112 < e → e < 143 → back s e m ≡ pack16 s (e - 112) m
back-finite s e m h k =
    let not_zero : (e == 0) ≡ false = ground arith in
    let not_top : (e == 255) ≡ false = ground arith in
    let not_flushed : leb e 112 ≡ false = ground arith in
    let not_over : leb 143 e ≡ false = ground arith in
    rw (not_zero, not_top, not_flushed, not_over) refl

float_to_half-zero : (s : ℕ) → s < 2 → float_to_half (s * 2 ^ 31) ≡ s * 2 ^ 15
unfolding float_to_half
float_to_half-zero s h =
    let sign : field (s * 2 ^ 31) 31 1 ≡ s = omega arith in
    let exp : field (s * 2 ^ 31) 23 8 ≡ 0 = omega arith in rw (exp, sign) refl

-- A fraction without a first bit takes at least one turn.
first_turn : (m : ℕ) → m < 2 ^ 10 → normalise 10 m 1 ≡ normalise 9 (m * 2) 0
unfolding normalise
first_turn m h =
    let go : bit m 10 ≡ false = ground arith in
    let next : u32 (m * 2) ≡ m * 2 = omega arith in rw (go, next) refl

-- A half that is no subnormal number comes back; a subnormal one comes back as a zero of its sign.
half_round_trip :
    (bits : ℕ)
    → bits < 2 ^ 16
    → float_to_half (half_to_float bits)
      ≡ (if field bits 10 5 == 0 then field bits 15 1 * 2 ^ 15 else bits)
unfolding half_to_float
half_round_trip bits h =
    let s : ℕ = field bits 15 1 in
    let e : ℕ = field bits 10 5 in
    let m : ℕ = field bits 0 10 in
    let sign_lt : s < 2 = omega arith in
    let mant_lt : m < 2 ^ 10 = omega arith in
    let parts : bits ≡ s * 2 ^ 15 + e * 2 ^ 10 + m = omega arith in
    elim (Bool-cases (e == 0)) [
      | inl sub ↦ elim (Bool-cases (m == 0)) [
        | inl nought ↦ rw (sub, nought) (float_to_half-zero s sign_lt)
        | inr some_ ↦
            let more : 2 ^ 10 ≤ m * 2 * 2 ^ 9 = ground arith in
            let (below, above, first) =
              normalise_lem 9 (m * 2) 0 (omega arith) more (omega arith) in
            let (m', e') : ℕ × ℕ = normalise 9 (m * 2) 0 in
            let E : ℕ = u32 (e' + 112) in
            rw (sub, some_, first_turn m mant_lt)
              (float_to_half-pack32 s E (field m' 0 10) sign_lt (omega arith) (omega arith)
                ∙ back-flushed s E (field m' 0 10) (omega (arith, above)) (omega (arith, below)))
      ]
      | inr normal ↦ elim (Bool-cases (e == 31)) [
        | inl top ↦
            let e31 : e ≡ 31 = ground arith in
            rw (normal, top)
              (float_to_half-pack32 s 255 m sign_lt (omega arith) mant_lt
                ∙ pack16-sum s 31 m (omega arith) mant_lt
                ∙ omega arith)
        | inr finite ↦
            let positive : 0 < e = ground arith in
            let small : e < 31 = ground arith in
            let E : ℕ = e + 112 in
            rw (normal, finite)
              (float_to_half-pack32 s E m sign_lt (omega arith) mant_lt
                ∙ back-finite s E m (omega arith) (omega arith)
                ∙ pack16-sum s (E - 112) m (omega arith) mant_lt
                ∙ omega arith)
      ]
    ]

-- The formats of floats, their codes, and what a round trip leaves of a datum.
pub data FloatFormat : Type 0 where
  float32 tf32 float16 float16_b : FloatFormat

abbrev pub code : FloatFormat → ℕ
code float32 = 0
code tf32 = 4
code float16 = 1
code float16_b = 5

abbrev pub flushed : FloatFormat → ℕ → ℕ
flushed float32 bits = bits
flushed tf32 bits = bits
flushed float16 bits = if field bits 10 5 == 0 then field bits 15 1 * 2 ^ 15 else bits
flushed float16_b bits = bits

-- A datum of the formats Float32, Tf32, Float16 and Float16_b that fits in its size, converted
-- to a float and back, is the same datum; only a Float16 that is subnormal becomes a zero of its
-- sign.
pub float_to_datum-datum_to_float :
    (casts : Casts) (format : FloatFormat) (bits : ℕ)
    → bits < 2 ^ (8 * get_datum_size (code format))
    → float_to_datum casts (datum_to_float casts bits (code format)) (code format)
      ≡ flushed format bits
unfolding get_datum_size datum_to_float float_to_datum
float_to_datum-datum_to_float casts float32 bits h = refl
float_to_datum-datum_to_float casts tf32 bits h = refl
float_to_datum-datum_to_float casts float16 bits h = half_round_trip bits h
float_to_datum-datum_to_float casts float16_b bits h =
    let shifted : u32 (bits * 2 ^ 16) ≡ bits * 2 ^ 16 = omega arith in rw shifted (omega arith)
