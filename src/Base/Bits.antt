-- ===== src/Base/Bits.antt =====
-- A conjunction with a low mask is a remainder, at every width: `field` is the shift and mask of C.
use Prim.Native.Nat.{ℕ, zero, suc, ◌+◌, ◌-◌, ◌*◌, ◌/◌, ◌%◌, ◌^◌, ◌≤◌, ◌<◌, min}
use Prim.Native.Nat.{bit_and, digits, bit_and-bitwise}
use mathlib.Core.Path.{◌≡◌, ap, ◌∙◌}
use native.Mathlib.Nat.{
  pow-suc, one-le-pow, le_refl, mod-lt, mod-add-div, add-mul-mod_self_left, mod-eq_of_lt,
}
use native.Mathlib.Omega.{arith}
use rv32_emu.Base.Word.{field}

-- The lowest digit of a remainder by an even number.
mod-double : (a m : ℕ) → 0 < m → a % (2 * m) ≡ a / 2 % m * 2 + a % 2
mod-double a m pos =
    let low : ℕ = a / 2 % m * 2 + a % 2 in
    let below : low < 2 * m = omega (arith, mod-lt (a / 2) pos) in
    let whole : a ≡ low + 2 * m * (a / 2 / m) = omega (arith, mod-add-div (a / 2) m) in
    ap (λ (t : ℕ). t % (2 * m)) whole
    ∙ add-mul-mod_self_left low (2 * m) (a / 2 / m)
    ∙ mod-eq_of_lt below

split_low : (a k : ℕ) → a % 2 ^ suc k ≡ a / 2 % 2 ^ k * 2 + a % 2
split_low a k =
    ap (λ (t : ℕ). a % t) (omega (arith, pow-suc 2 k))
    ∙ mod-double a (2 ^ k) (one-le-pow k 2 (omega arith))

-- The digit recursion that `bit_and` stands for, against a mask of `k` ones.
masked : (fuel k a : ℕ) → a ≤ fuel → digits (λ b. 0) min fuel a (2 ^ k - 1) ≡ a % 2 ^ k
masked zero k zero h = omega (arith, one-le-pow k 2)
masked zero k (suc a) h = absurd (omega arith)
masked (suc fuel) k zero h = omega (arith, one-le-pow k 2)
masked (suc fuel) zero (suc a) h = omega (arith, masked fuel 0 (suc a / 2) (omega arith))
masked (suc fuel) (suc k) (suc a) h =
    let half : (2 ^ suc k - 1) / 2 ≡ 2 ^ k - 1 = omega (arith, pow-suc 2 k, one-le-pow k 2) in
    rw (half, masked fuel k (suc a / 2) (omega arith), split_low (suc a) k)
      (omega (arith, pow-suc 2 k, one-le-pow k 2))

pub bit_and-mask : (k a : ℕ) → bit_and a (2 ^ k - 1) ≡ a % 2 ^ k
bit_and-mask k a = bit_and-bitwise a (2 ^ k - 1) ∙ masked a k a (le_refl a)

pub bit_and-field : (x lo width : ℕ) → bit_and (x / 2 ^ lo) (2 ^ width - 1) ≡ field x lo width
bit_and-field x lo width = bit_and-mask width (x / 2 ^ lo)
