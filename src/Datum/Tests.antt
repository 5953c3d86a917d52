-- ===== src/Datum/Tests.antt =====
-- The data formats' theorems at concrete words.
use native.Mathlib.Omega.{arith}
use rv32_emu.Base.{◌≡◌, leb}
use rv32_emu.Datum.Defs.{Casts, get_datum_size, datum_to_float, float_to_datum}
use rv32_emu.Datum.Halves.{float16, float_to_datum-datum_to_float}

-- Casts between numbers that are their own floats.
abbrev plain_casts : Casts
plain_casts = record {
  of_int32 = λ x. x;
  to_int32 = λ x. x;
  to_uint16 = λ x. x;
  to_int16 = λ x. x;
  to_uint8 = λ x. x;
  neg = λ x. x;
  negative = leb 0x80000000;
}

-- The greatest subnormal number, negative.
float_to_datum-datum_to_float_example :
    float_to_datum plain_casts (datum_to_float plain_casts 0x83FF 1) 1 ≡ 0x8000
unfolding get_datum_size
float_to_datum-datum_to_float_example =
    float_to_datum-datum_to_float plain_casts float16 0x83FF (omega arith)
