-- ===== src/Matrix/Tests.antt =====
-- The matrix unit's theorems on a core whose banks are the matrix unit's own.
use native.Mathlib.Omega.{arith}
use rv32_emu.Base.{◌+◌, ◌-◌, ◌*◌, ◌≡◌, refl, Bool, true, false, ltb, u32}
use rv32_emu.Core.{Core}
use rv32_emu.Floats.{FloatOps}
use rv32_emu.Cop.Tests.{core, banks}
use rv32_emu.Counters.{apply_addr_mod}
use rv32_emu.Insn.Handover.{InStep, IsInStep}
use rv32_emu.Matrix.Moves.{ttmovd2b, ttmovb2d, tttrnspsrcb}
use rv32_emu.Matrix.Products.{ttmvmul}
use rv32_emu.Matrix.Elementwise.{add, mul, run, result, run-cell}
use rv32_emu.Matrix.Product.{dot, ttmvmul-cell}
use rv32_emu.Matrix.Transposed.{tttrnspsrcb-cell}
use rv32_emu.Matrix.Copies.{ttmovb2d-ttmovd2b}
use rv32_emu.Matrix.Handover.{operands-IsInStep}

-- Words that are numbers, not floats.
abbrev pub words_ops : FloatOps
words_ops = record {
  add = λ a b. u32 (a + b);
  sub = λ a b. u32 (a + (4294967296 - b));
  mul = λ a b. u32 (a * b);
  neg = λ a. u32 (4294967296 - a);
  greater = λ a b. ltb b a;
  fabs = λ a. a;
  copysign = λ a b. a;
  of_unsigned = λ a. a;
}

abbrev ready : Core Bool
ready = record core {
  banks = record banks { srca_dvalid = λ i. true; srcb_dvalid = λ i. true };
  srca = λ b r c. r + 1;
  srcb = λ b r c. 10 * r + c + 2;
  dest = λ r c. 100 * r + c;
}

-- ELWADD with accumulation of the rows 0 to 7.
run-cell_example :
    ((run words_ops add ready 0x200000 1).1 ≡ true)
    × ((run words_ops add ready 0x200000 1).0.dest 3 5 ≡ 346)
unfolding result
run-cell_example = run-cell words_ops ready 0x200000 1 add 3 5 refl (omega arith)

ttmvmul-cell_example :
    ((ttmvmul words_ops false ready 0 1).1 ≡ true)
    × ((ttmvmul words_ops false ready 0 1).0.dest 0 5 ≡ 1637)
unfolding dot
ttmvmul-cell_example = ttmvmul-cell words_ops false ready 0 1 0 5 refl refl (omega arith)

tttrnspsrcb-cell_example :
    ((tttrnspsrcb ready 0 1).1 ≡ true)
    × ((tttrnspsrcb ready 0 1).0.srcb 0 18 5 ≡ 214)
    × ((tttrnspsrcb (tttrnspsrcb ready 0 1).0 0 1).0.srcb 0 18 5 ≡ 187)
tttrnspsrcb-cell_example = tttrnspsrcb-cell ready 0 1 0 18 5

-- Rows 4 to 7 through SrcB to rows 8 to 11.
ttmovb2d-ttmovd2b_example : (ttmovb2d (ttmovd2b ready 0x2004 1).0 0x2008 1).0.dest 9 2 ≡ 502
unfolding ttmovd2b apply_addr_mod
ttmovb2d-ttmovd2b_example =
    ttmovb2d-ttmovd2b ready 0x2004 0x2008 1 9 2 refl refl refl refl (omega arith)

ready-InStep : InStep (λ i. true) 0 0
ready-InStep = record {
  unp_lt = omega arith;
  math_lt = omega arith;
  one_owner = λ e. refl;
  two_owners = λ q. absurd (q refl);
}

-- Both operands flipped.
operands-IsInStep_example :
    IsInStep (run words_ops mul ready 0xC00000 1).0.banks
    × IsInStep (ttmvmul words_ops false ready 0xC00000 1).0.banks
operands-IsInStep_example =
    operands-IsInStep words_ops ready 0xC00000 1 mul false
      (record { srca = ready-InStep; srcb = ready-InStep })
