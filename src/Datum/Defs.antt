-- ===== src/Datum/Defs.antt =====
-- The conversions, by the code of the format. A float is its bit pattern.
use rv32_emu.Base.{
  ℕ, zero, suc, ◌+◌, ◌-◌, ◌*◌, ◌^◌, Bool, ◌&&◌, ◌||◌, ◌==◌, ltb, leb, if◌then◌else◌, field, bit,
  u32, bit_or,
}

-- C's conversions between `float` and the integer types, and its negation and order. The integers
-- are given by their bits, those of 8 and 16 bits extended with zeros.
pub record Casts : Type 0 where
  pub of_int32 : ℕ → ℕ
  pub to_int32 : ℕ → ℕ
  pub to_uint16 : ℕ → ℕ
  pub to_int16 : ℕ → ℕ
  pub to_uint8 : ℕ → ℕ
  pub neg : ℕ → ℕ
  pub negative : ℕ → Bool

unfoldable pub get_datum_size : ℕ → ℕ
get_datum_size fmt =
    if fmt == 0 || fmt == 4 || fmt == 8
    then 4
    else if fmt == 1 || fmt == 5 || fmt == 9 || fmt == 12
    then 2
    else if fmt == 10 || fmt == 14 || fmt == 30
    then 1
    else if fmt == 2 || fmt == 6
    then 1
    else if fmt == 3 || fmt == 7 || fmt == 11 || fmt == 15
    then 1
    else 4

-- `while (!(mant & 0x400)) { mant <<= 1; exp--; }`
unfoldable pub normalise : ℕ → ℕ → ℕ → ℕ × ℕ
normalise zero mant exp = (mant, exp)
normalise (suc fuel) mant exp =
    let rest = normalise fuel (u32 (mant * 2)) (u32 (exp + (2 ^ 32 - 1))) in
    if bit mant 10 then (mant, exp) else rest

-- Sign, exponent and fraction in their places.
abbrev pub pack32 : ℕ → ℕ → ℕ → ℕ
pack32 sign exp mant = bit_or (bit_or (sign * 2 ^ 31) (u32 (exp * 2 ^ 23))) (u32 (mant * 2 ^ 13))

abbrev pub pack16 : ℕ → ℕ → ℕ → ℕ
pack16 sign exp mant = bit_or (bit_or (sign * 2 ^ 15) (exp * 2 ^ 10)) mant

-- Ten turns bring any fraction to its first bit.
unfoldable pub half_to_float : ℕ → ℕ
unfolding normalise
half_to_float bits =
    let sign = field bits 15 1 in
    let exp = field bits 10 5 in
    let mant = field bits 0 10 in
    let (mant', exp') = normalise 10 mant 1 in
    if exp == 0
    then (if mant == 0 then sign * 2 ^ 31 else pack32 sign (u32 (exp' + 112)) (field mant' 0 10))
    else if exp == 31
    then pack32 sign 255 mant
    else pack32 sign (exp + 112) mant

unfoldable pub float_to_half : ℕ → ℕ
float_to_half f =
    let sign = field f 31 1 in
    let exp = field f 23 8 in
    let mant = field f 13 10 in
    if exp == 0
    then sign * 2 ^ 15
    else if exp == 255
    then pack16 sign 31 mant
    else if leb exp 112
    then sign * 2 ^ 15
    else if leb 143 exp
    then pack16 sign 31 0
    else pack16 sign (exp - 112) mant

module _ (casts : Casts) where
  unfoldable pub datum_to_float : ℕ → ℕ → ℕ
  unfolding half_to_float
  datum_to_float bits fmt =
      if fmt == 0 || fmt == 4
      then bits
      else if fmt == 5
      then u32 (bits * 2 ^ 16)
      else if fmt == 1
      then half_to_float bits
      else if fmt == 8
      then casts.of_int32 bits
      else if fmt == 9
      then casts.of_int32 (field bits 0 16)
      else if fmt == 12
      then casts.of_int32 (field bits 0 16 + field bits 15 1 * 0xFFFF0000)
      else if fmt == 14
      then (if bit bits 7
          then casts.neg (casts.of_int32 (field bits 0 7))
          else casts.of_int32 (field bits 0 7))
      else if fmt == 30
      then casts.of_int32 (field bits 0 8)
      else 0

  unfoldable pub float_to_datum : ℕ → ℕ → ℕ
  unfolding float_to_half
  float_to_datum f fmt =
      let sign = casts.negative f in
      let mag = casts.to_int32 (if sign then casts.neg f else f) in
      let mag' = if ltb mag (2 ^ 31) && ltb 127 mag then 127 else mag in
      if fmt == 0 || fmt == 4
      then f
      else if fmt == 5
      then field f 16 16
      else if fmt == 1
      then float_to_half f
      else if fmt == 8
      then casts.to_int32 f
      else if fmt == 9
      then casts.to_uint16 f
      else if fmt == 12
      then casts.to_int16 f
      else if fmt == 14
      then bit_or (if sign then 128 else 0) mag'
      else if fmt == 30
      then casts.to_uint8 f
      else 0
