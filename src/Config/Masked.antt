-- ===== src/Config/Masked.antt =====
-- Masked writes: a byte of a configuration register, bit by bit.
use rv32_emu.Base.{
  ℕ, ◌+◌, ◌-◌, ◌^◌, ◌<◌, ◌≡◌, ◌≢◌, refl, ap, ◌∙◌, Bool, true, false, ◌&&◌, ◌||◌, not, some, ltb,
  if◌then◌else◌, update, update_self, update-ne, field, bit, bit_and, arith,
}
use rv32_emu.Base.BitOps.{bit-bit_and, bit-bit_or, bit-complement}
use rv32_emu.Core.{Core}
use rv32_emu.Config.Defs.{cfg_reg_count, cfg_offset, merge_byte, rmwcib_common}

-- The bits of the mask are the new value's, the others the old byte's.
pub merge_byte-bit :
    (mask new_value old_byte i : ℕ)
    → mask < 2 ^ 8
    → i < 8
    → bit (merge_byte mask new_value old_byte) i
      ≡ (if bit mask i then bit new_value i else bit old_byte i)
unfolding merge_byte
merge_byte-bit mask new_value old_byte i m h =
    bit-bit_or (bit_and new_value mask) (bit_and old_byte (2 ^ 8 - 1 - mask)) i
    ∙ rw
        (
          bit-bit_and new_value mask i,
          bit-bit_and old_byte (2 ^ 8 - 1 - mask) i,
          bit-complement 8 mask i m h,
        )
        (choose (bit mask i) (bit new_value i) (bit old_byte i))
  where
    choose : (m n o : Bool) → (n && m || o && not m) ≡ (if m then n else o)
    choose true true true = refl
    choose true true false = refl
    choose true false true = refl
    choose true false false = refl
    choose false true true = refl
    choose false true false = refl
    choose false false true = refl
    choose false false false = refl

-- If the configuration memory is there, a masked write of byte k of a configuration register
-- takes each bit of that byte from the new value where the mask has the bit set and from the old
-- byte elsewhere, and leaves every other byte of the memory as it was.
pub rmwcib_common-bits :
    {D : Type 0} (core : Core D) {high : ℕ → ℕ} (imm k : ℕ)
    → core.memory.high_mem ≡ some high
    → (after : ℕ → ℕ) × ((rmwcib_common core imm k).memory.high_mem ≡ some after)
      × ((i : ℕ)
          → i < 8
          → bit (after (cfg_offset (field imm 0 8) + k)) i ≡ (
              if bit (field imm 16 8) i
              then bit (field imm 8 8) i
              else bit (high (cfg_offset (field imm 0 8) + k)) i))
      × ((a : ℕ) → a ≢ cfg_offset (field imm 0 8) + k → after a ≡ high a)
unfolding rmwcib_common
rmwcib_common-bits core {high = high} imm k present =
    let at : ℕ = cfg_offset (field imm 0 8) + k in
    let byte : ℕ = merge_byte (field imm 16 8) (field imm 8 8) (high at) in
    let known : ltb (field imm 0 8) cfg_reg_count ≡ true = ground arith in
    (
      update high at byte,
      rw (known, present) refl,
      λ i h.
          ap (λ (b : ℕ). bit b i) (update_self high at byte)
          ∙ merge_byte-bit (field imm 16 8) (field imm 8 8) (high at) i (omega arith) h,
      λ a ne. update-ne high at a byte ne,
    )
