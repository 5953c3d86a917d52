-- ===== src/Base/Xor.antt =====
-- Exclusive or undoes itself.
use Prim.Native.Nat.{ℕ, zero, suc, ◌+◌, ◌*◌, ◌/◌, ◌%◌, ◌≤◌, ◌<◌}
use Prim.Native.Nat.{bit_xor, digits, differ, bit_xor-bitwise}
use mathlib.Core.Path.{◌≡◌, refl, sym, ap, ap₂, ◌∙◌}
use native.Mathlib.Nat.{le_refl}
use native.Mathlib.Omega.{arith}

-- The digit recursion that `bit_xor` stands for.
abbrev xor_digits : ℕ → ℕ → ℕ → ℕ
xor_digits n a b = digits (λ b. b) differ n a b

differ-twice : (p q : ℕ) → p < 2 → q < 2 → (differ p (differ p q) ≡ q) × (differ p q < 2)
differ-twice zero q hp hq = (refl, hq)
differ-twice (suc zero) zero hp hq = (refl, omega arith)
differ-twice (suc zero) (suc zero) hp hq = (refl, omega arith)
differ-twice (suc zero) (suc (suc q)) hp hq = absurd (omega arith)
differ-twice (suc (suc p)) q hp hq = absurd (omega arith)

differ_comm : (p q : ℕ) → differ p q ≡ differ q p
differ_comm zero zero = refl
differ_comm zero (suc q) = refl
differ_comm (suc p) zero = refl
differ_comm (suc p) (suc q) = differ_comm p q

xor_digits-twice : (n a b : ℕ) → a ≤ n → xor_digits n a (xor_digits n a b) ≡ b
xor_digits-twice zero a b h = refl
xor_digits-twice (suc n) zero b h = refl
xor_digits-twice (suc n) (suc a) b h =
    let low : ℕ = suc a % 2 in
    let (again, small) = differ-twice low (b % 2) (omega arith) (omega arith) in
    let high : ℕ = xor_digits n (suc a / 2) (b / 2) in
    let half : (high * 2 + differ low (b % 2)) / 2 ≡ high = omega arith in
    let last : (high * 2 + differ low (b % 2)) % 2 ≡ differ low (b % 2) = omega arith in
    rw (half, last, xor_digits-twice n (suc a / 2) (b / 2) (omega arith), again) (omega arith)

xor_digits-zero : (n a : ℕ) → a ≤ n → xor_digits n a 0 ≡ a
xor_digits-zero zero a h = omega arith
xor_digits-zero (suc n) zero h = refl
xor_digits-zero (suc n) (suc a) h =
    rw (differ_comm (suc a % 2) 0) (omega (arith, xor_digits-zero n (suc a / 2) (omega arith)))

xor_digits_comm : (n m a b : ℕ) → a ≤ n → b ≤ m → xor_digits n a b ≡ xor_digits m b a
xor_digits_comm zero m zero b h k = sym (xor_digits-zero m b k)
xor_digits_comm zero m (suc a) b h k = absurd (omega arith)
xor_digits_comm (suc n) m zero b h k = sym (xor_digits-zero m b k)
xor_digits_comm (suc n) zero (suc a) zero h k = xor_digits-zero (suc n) (suc a) h
xor_digits_comm (suc n) zero (suc a) (suc b) h k = absurd (omega arith)
xor_digits_comm (suc n) (suc m) (suc a) zero h k = xor_digits-zero (suc n) (suc a) h
xor_digits_comm (suc n) (suc m) (suc a) (suc b) h k =
    ap₂ (λ (x y : ℕ). x * 2 + y)
      (xor_digits_comm n m (suc a / 2) (suc b / 2) (omega arith) (omega arith))
      (differ_comm (suc a % 2) (suc b % 2))

pub bit_xor-twice : (a b : ℕ) → bit_xor a (bit_xor a b) ≡ b
bit_xor-twice a b =
    ap (bit_xor a) (bit_xor-bitwise a b)
    ∙ bit_xor-bitwise a (xor_digits a a b)
    ∙ xor_digits-twice a a b (le_refl a)

pub bit_xor_comm : (a b : ℕ) → bit_xor a b ≡ bit_xor b a
bit_xor_comm a b =
    bit_xor-bitwise a b
    ∙ xor_digits_comm a b a b (le_refl a) (le_refl b)
    ∙ sym (bit_xor-bitwise b a)

pub bit_xor-zero : (a : ℕ) → bit_xor a 0 ≡ a
bit_xor-zero a = bit_xor-bitwise a 0 ∙ xor_digits-zero a a (le_refl a)
