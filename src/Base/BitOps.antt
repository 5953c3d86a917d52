-- ===== src/Base/BitOps.antt =====
-- The bits of a conjunction, a disjunction and a complement.
use Prim.Native.Nat.{
  ℕ, zero, suc, ◌+◌, ◌-◌, ◌*◌, ◌/◌, ◌%◌, ◌^◌, ◌≤◌, ◌<◌, min, max, bit_and, bit_or, digits,
  bit_and-bitwise, bit_or-bitwise,
}
use mathlib.Core.Path.{◌≡◌, sym, ap, ap₂, ◌∙◌}
use mathlib.Core.Bool.{◌&&◌, ◌||◌, not, false}
use native.Mathlib.Nat.{
  pow-suc, div-div-eq-div-mul, div-lt_iff_lt-mul, le_refl, mul_assoc, mul_comm,
}
use native.Mathlib.Omega.{arith}
use rv32_emu.Base.Tests.{◌==◌}
use rv32_emu.Base.Word.{bit}

-- Binary digit `i`, from the lowest.
digit : ℕ → ℕ → ℕ
digit i x = x / 2 ^ i % 2

digit_zero : (x : ℕ) → digit 0 x ≡ x % 2
unfolding digit
digit_zero x = omega arith

digit-suc : (i x : ℕ) → digit (suc i) x ≡ digit i (x / 2)
unfolding digit
digit-suc i x =
    ap (λ (t : ℕ). t % 2)
      (ap (λ (t : ℕ). x / t) (omega (arith, pow-suc 2 i)) ∙ sym (div-div-eq-div-mul x 2 (2 ^ i)))

digit-lt : (i x : ℕ) → digit i x < 2
unfolding digit
digit-lt i x = omega arith

digit-of_zero : (i : ℕ) → digit i 0 ≡ 0
digit-of_zero zero = digit_zero 0
digit-of_zero (suc i) = digit-suc i 0 ∙ digit-of_zero i

-- The digit recursion that the native operations stand for works on each digit alone.
module _ (f : ℕ → ℕ → ℕ) (z : ℕ → ℕ) (small : (p q : ℕ) → p < 2 → q < 2 → f p q < 2)
    (at_zero : (i b : ℕ) → digit i (z b) ≡ f 0 (digit i b)) where
  zero-digits : (i b : ℕ) → digit i (z b) ≡ f (digit i 0) (digit i b)
  zero-digits i b = at_zero i b ∙ ap (λ (t : ℕ). f t (digit i b)) (sym (digit-of_zero i))

  digits-digit : (n a b i : ℕ) → a ≤ n → digit i (digits z f n a b) ≡ f (digit i a) (digit i b)
  digits-digit zero zero b i h = zero-digits i b
  digits-digit (suc n) zero b i h = zero-digits i b
  digits-digit zero (suc a) b i h = absurd (omega arith)
  digits-digit (suc n) (suc a) b zero h =
      let low : ℕ = f (suc a % 2) (b % 2) in
      let below : low < 2 = small (suc a % 2) (b % 2) (omega arith) (omega arith) in
      let high : ℕ = digits z f n (suc a / 2) (b / 2) in
      let last : digit 0 (high * 2 + low) ≡ low = digit_zero (high * 2 + low) ∙ omega arith in
      last ∙ ap₂ f (sym (digit_zero (suc a))) (sym (digit_zero b))
  digits-digit (suc n) (suc a) b (suc i) h =
      let low : ℕ = f (suc a % 2) (b % 2) in
      let below : low < 2 = small (suc a % 2) (b % 2) (omega arith) (omega arith) in
      let high : ℕ = digits z f n (suc a / 2) (b / 2) in
      let half : (high * 2 + low) / 2 ≡ high = omega arith in
      digit-suc i (high * 2 + low)
      ∙ ap (digit i) half
      ∙ digits-digit n (suc a / 2) (b / 2) i (omega arith)
      ∙ ap₂ f (sym (digit-suc i (suc a))) (sym (digit-suc i b))

min-lt : (p q : ℕ) → p < 2 → q < 2 → min p q < 2
min-lt zero q h k = omega arith
min-lt (suc p) zero h k = omega arith
min-lt (suc zero) (suc zero) h k = omega arith
min-lt (suc zero) (suc (suc q)) h k = absurd (omega arith)
min-lt (suc (suc p)) (suc q) h k = absurd (omega arith)

max-lt : (p q : ℕ) → p < 2 → q < 2 → max p q < 2
max-lt zero q h k = omega arith
max-lt (suc p) zero h k = omega arith
max-lt (suc zero) (suc zero) h k = omega arith
max-lt (suc zero) (suc (suc q)) h k = absurd (omega arith)
max-lt (suc (suc p)) (suc q) h k = absurd (omega arith)

digit-bit_and : (i a b : ℕ) → digit i (bit_and a b) ≡ min (digit i a) (digit i b)
digit-bit_and i a b =
    ap (digit i) (bit_and-bitwise a b)
    ∙ digits-digit min (λ b. 0) min-lt (λ j c. digit-of_zero j ∙ omega arith) a a b i (le_refl a)

digit-bit_or : (i a b : ℕ) → digit i (bit_or a b) ≡ max (digit i a) (digit i b)
digit-bit_or i a b =
    ap (digit i) (bit_or-bitwise a b)
    ∙ digits-digit max (λ b. b) max-lt (λ j c. omega arith) a a b i (le_refl a)

min_test : (p q : ℕ) → p < 2 → q < 2 → (min p q == 1) ≡ (p == 1 && q == 1)
min_test zero q h k = ground arith
min_test (suc zero) zero h k = ground arith
min_test (suc zero) (suc zero) h k = ground arith
min_test (suc zero) (suc (suc q)) h k = absurd (omega arith)
min_test (suc (suc p)) q h k = absurd (omega arith)

max_test : (p q : ℕ) → p < 2 → q < 2 → (max p q == 1) ≡ (p == 1 || q == 1)
max_test zero zero h k = ground arith
max_test zero (suc zero) h k = ground arith
max_test (suc zero) zero h k = ground arith
max_test (suc zero) (suc zero) h k = ground arith
max_test p (suc (suc q)) h k = absurd (omega arith)
max_test (suc (suc p)) q h k = absurd (omega arith)

-- A bit as a test is the digit.
bit-digit : (x i : ℕ) → bit x i ≡ (digit i x == 1)
unfolding digit
bit-digit x i = ap (λ (t : ℕ). t == 1) (omega arith)

test_digit : (p q : ℕ) → p ≡ q → (p == 1) ≡ (q == 1)
test_digit p q e = ap (λ (t : ℕ). t == 1) e

pub bit-bit_and : (a b i : ℕ) → bit (bit_and a b) i ≡ (bit a i && bit b i)
bit-bit_and a b i =
    bit-digit (bit_and a b) i
    ∙ test_digit _ _ (digit-bit_and i a b)
    ∙ min_test (digit i a) (digit i b) (digit-lt i a) (digit-lt i b)
    ∙ sym (ap₂ ◌&&◌ (bit-digit a i) (bit-digit b i))

pub bit-bit_or : (a b i : ℕ) → bit (bit_or a b) i ≡ (bit a i || bit b i)
bit-bit_or a b i =
    bit-digit (bit_or a b) i
    ∙ test_digit _ _ (digit-bit_or i a b)
    ∙ max_test (digit i a) (digit i b) (digit-lt i a) (digit-lt i b)
    ∙ sym (ap₂ ◌||◌ (bit-digit a i) (bit-digit b i))

digit-complement : (w x i : ℕ) → x < 2 ^ w → i < w → digit i (2 ^ w - 1 - x) + digit i x ≡ 1
digit-complement zero x i h k = absurd (omega arith)
digit-complement (suc w) x zero h k =
    omega (arith, digit_zero (2 ^ suc w - 1 - x), digit_zero x, pow-suc 2 w)
digit-complement (suc w) x (suc i) h k =
    let half : (2 ^ suc w - 1 - x) / 2 ≡ 2 ^ w - 1 - x / 2 = omega (arith, pow-suc 2 w) in
    omega (
      arith,
      digit-suc i (2 ^ suc w - 1 - x),
      digit-suc i x,
      ap (digit i) half,
      digit-complement w (x / 2) i (omega (arith, pow-suc 2 w)) (omega arith),
    )

-- The complement of a word of `w` bits.
pub bit-complement : (w x i : ℕ) → x < 2 ^ w → i < w → bit (2 ^ w - 1 - x) i ≡ not (bit x i)
bit-complement w x i h k =
    bit-digit (2 ^ w - 1 - x) i
    ∙ ground (arith, digit-complement w x i, digit-lt i x)
    ∙ ap not (sym (bit-digit x i))

-- A number is its digits.
digits_ext : (n a b : ℕ) → a ≤ n → b ≤ n → ((i : ℕ) → digit i a ≡ digit i b) → a ≡ b
digits_ext zero a b h k same = omega arith
digits_ext (suc n) a b h k same =
    let half : a / 2 ≡ b / 2 =
      digits_ext n (a / 2) (b / 2) (omega arith) (omega arith)
        (λ i. sym (digit-suc i a) ∙ same (suc i) ∙ digit-suc i b) in
    omega (arith, half, digit_zero a, digit_zero b, same 0)

-- A number without a bit is zero.
pub zero_of_bits : (x : ℕ) → ((i : ℕ) → bit x i ≡ false) → x ≡ 0
zero_of_bits x none =
    digits_ext x x 0 (omega arith) (omega arith)
      (λ i. ground (arith, bit-digit x i, none i, digit-lt i x, digit-of_zero i))

pow_grows : (w k : ℕ) → 2 ^ w ≤ 2 ^ (w + k)
pow_grows w zero = ground arith
pow_grows w (suc k) =
    let next : w + suc k ≡ suc (w + k) = omega arith in
    omega (arith, pow_grows w k, pow-suc 2 (w + k), ap (λ (n : ℕ). 2 ^ n) next)

-- A number of `w` bits has none beyond them.
pub bit-beyond : (w k x : ℕ) → x < 2 ^ w → bit x (w + k) ≡ false
bit-beyond w k x h =
    let some_pow : 0 < 2 ^ (w + k) = omega (arith, pow_grows w k) in
    let small : x < 1 * 2 ^ (w + k) = omega (arith, pow_grows w k) in
    let none : x / 2 ^ (w + k) < 1 = (div-lt_iff_lt-mul some_pow).1 small in ground arith

pow-double : (hi w : ℕ) → hi * 2 ^ suc w ≡ 2 * (hi * 2 ^ w)
pow-double hi w =
    ap (λ (t : ℕ). hi * t) (pow-suc 2 w) ∙ sym (mul_assoc hi (2 ^ w) 2) ∙ mul_comm (hi * 2 ^ w) 2

digit-add :
    (w i hi y : ℕ) → y < 2 ^ w → digit i (hi * 2 ^ w + y) ≡ max (digit i (hi * 2 ^ w)) (digit i y)
digit-add zero i hi y h =
    let none : y ≡ 0 = omega arith in
    rw none
      (ap (digit i) {x = hi * 1 + 0} {y = hi * 1} (omega arith) ∙ omega (arith, digit-of_zero i))
digit-add (suc w) zero hi y h = omega (
  arith,
  pow-double hi w,
  digit_zero (hi * 2 ^ suc w + y),
  digit_zero (hi * 2 ^ suc w),
  digit_zero y,
)
digit-add (suc w) (suc i) hi y h =
    let p : ℕ = hi * 2 ^ w in
    let half : (hi * 2 ^ suc w + y) / 2 ≡ p + y / 2 = omega (arith, pow-double hi w) in
    let half' : hi * 2 ^ suc w / 2 ≡ p = omega (arith, pow-double hi w) in
    digit-suc i (hi * 2 ^ suc w + y)
    ∙ ap (digit i) half
    ∙ digit-add w i hi (y / 2) (omega (arith, pow-suc 2 w))
    ∙ ap₂ max (ap (digit i) (sym half') ∙ sym (digit-suc i (hi * 2 ^ suc w))) (sym (digit-suc i y))

-- A disjunction without a common bit is a sum.
pub bit_or_add : (w hi y : ℕ) → y < 2 ^ w → bit_or (hi * 2 ^ w) y ≡ hi * 2 ^ w + y
bit_or_add w hi y h =
    let a : ℕ = bit_or (hi * 2 ^ w) y in
    let b : ℕ = hi * 2 ^ w + y in
    digits_ext (a + b) a b (omega arith) (omega arith)
      (λ i. digit-bit_or i (hi * 2 ^ w) y ∙ sym (digit-add w i hi y h))
