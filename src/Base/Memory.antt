-- ===== src/Base/Memory.antt =====
-- Memory as bytes, and the 32-bit accesses to it, lowest byte first.
use Prim.Native.Nat.{ℕ, ◌+◌, ◌*◌, ◌/◌, ◌%◌, ◌^◌, ◌≤◌, ◌<◌}
use mathlib.Core.Path.{◌≡◌, fun_ext}
use mathlib.Core.Logic.{◌⊎◌}
use native.Mathlib.Omega.{arith}
use rv32_emu.Base.Tests.{◌==◌, if◌then◌else◌}
use rv32_emu.Base.Arrays.{update}

pub load32 : (ℕ → ℕ) → ℕ → ℕ
load32 m a = m a + 2 ^ 8 * m (a + 1) + 2 ^ 16 * m (a + 2) + 2 ^ 24 * m (a + 3)

pub store32 : (ℕ → ℕ) → ℕ → ℕ → ℕ → ℕ
store32 m a v =
    update
      (update (update (update m a (v % 2 ^ 8)) (a + 1) (v / 2 ^ 8 % 2 ^ 8)) (a + 2)
        (v / 2 ^ 16 % 2 ^ 8))
      (a + 3) (v / 2 ^ 24 % 2 ^ 8)

-- The byte that a store leaves at an address.
store32-at :
    (m : ℕ → ℕ) (a v b : ℕ)
    → store32 m a v b ≡ (
        if b == a + 3
        then v / 2 ^ 24 % 2 ^ 8
        else if b == a + 2
        then v / 2 ^ 16 % 2 ^ 8
        else if b == a + 1
        then v / 2 ^ 8 % 2 ^ 8
        else if b == a
        then v % 2 ^ 8
        else m b)
unfolding store32
store32-at m a v b = ground arith

pub store32-apart : (m : ℕ → ℕ) (a v b : ℕ) → (b < a) ⊎ (a + 4 ≤ b) → store32 m a v b ≡ m b
store32-apart m a v b h = ground (arith, store32-at m a v b)

-- A word is read back as it was written.
pub load32-store32 : (m : ℕ → ℕ) (a v : ℕ) → v < 2 ^ 32 → load32 (store32 m a v) a ≡ v
unfolding load32
load32-store32 m a v h = ground (
  arith,
  store32-at m a v a,
  store32-at m a v (a + 1),
  store32-at m a v (a + 2),
  store32-at m a v (a + 3),
)

-- A word beside the written one is as before.
pub load32-store32_apart :
    (m : ℕ → ℕ) (a v b : ℕ) → (b + 4 ≤ a) ⊎ (a + 4 ≤ b) → load32 (store32 m a v) b ≡ load32 m b
unfolding load32
load32-store32_apart m a v b h = ground (
  arith,
  store32-apart m a v b,
  store32-apart m a v (b + 1),
  store32-apart m a v (b + 2),
  store32-apart m a v (b + 3),
)

-- Words apart may be written in either order.
pub store32-store32_apart :
    (m : ℕ → ℕ) (a v b w : ℕ)
    → a + 4 ≤ b
    → store32 (store32 m a v) b w ≡ store32 (store32 m b w) a v
store32-store32_apart m a v b w h = fun_ext λ c. ground (
  arith,
  store32-at (store32 m a v) b w c,
  store32-at m a v c,
  store32-at (store32 m b w) a v c,
  store32-at m b w c,
)
