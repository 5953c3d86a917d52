-- ===== src/Base/Word.antt =====
-- Words of fixed width, shifts and bit fields.
use Prim.Native.Nat.{ℕ, ◌/◌, ◌%◌, ◌^◌}
use mathlib.Core.Bool.{Bool}
use rv32_emu.Base.Tests.{◌==◌}

abbrev pub u32 : ℕ → ℕ
u32 n = n % 2 ^ 32

-- `(x >> lo) & (2 ^ width - 1)`; `Bits.bit_and-field` says that it is that.
abbrev pub field : ℕ → ℕ → ℕ → ℕ
field x lo width = x / 2 ^ lo % 2 ^ width

-- `x & (1 << i)` as a test.
abbrev pub bit : ℕ → ℕ → Bool
bit x i = field x i 1 == 1
