-- ===== src/Base/Ring.antt =====
-- Ring buffers: the items of `n` slots from `h` on, read around the end of an array of `size`.
use Prim.Native.Nat.{ℕ, zero, suc, ◌+◌, ◌-◌, ◌%◌, ◌≤◌, ◌<◌}
use mathlib.Core.Path.{◌≡◌, refl, sym, ap, ap₂, ◌∙◌}
use mathlib.Core.Logic.{◌⊎◌, inl, inr}
use mathlib.Core.List.{List, [], ◌∷◌, ◌++◌}
use native.Mathlib.Nat.{mod-lt, mod-eq_of_lt, mod-eq-sub-mod, mod-add-mod}
use native.Mathlib.Decide.{dec_lt}
use native.Mathlib.Omega.{arith}
use rv32_emu.Base.Arrays.{update, update_self, update-ne}
use rv32_emu.Base.Lists.{length}

module _ {ℓ} {A : Type ℓ} where
  unfoldable pub window : ℕ → ℕ → ℕ → (ℕ → A) → List A
  window size zero h b = []
  window size (suc n) h b = b h ∷ window size n ((h + 1) % size) b

  pub length-window : (size n h : ℕ) (b : ℕ → A) → length (window size n h b) ≡ n
  unfolding window
  length-window size zero h b = refl
  length-window size (suc n) h b = ap suc (length-window size n ((h + 1) % size) b)

-- One turn around the ring at most.
pub wrap_cases :
    (size h s : ℕ)
    → h < size
    → s ≤ size
    → ((h + s) % size ≡ h + s) × (h + s < size) ⊎ ((h + s) % size + size ≡ h + s)
wrap_cases size h s p q = elim (dec_lt (h + s) size) [
  | yes below ↦ inl (mod-eq_of_lt below, below)
  | no above ↦
      inr
        (omega (arith, mod-eq-sub-mod {n = h + s} {m = size} (omega arith), past_end (omega arith)))
]
  where
    past_end : h + s - size < size → (h + s - size) % size ≡ h + s - size
    past_end r = mod-eq_of_lt r

pub wrap-suc : (size h s : ℕ) → ((h + 1) % size + s) % size ≡ (h + suc s) % size
wrap-suc size h s = mod-add-mod (h + 1) size s ∙ ap (λ (t : ℕ). t % size) (omega arith)

module _ {ℓ} {A : Type ℓ} where
  -- A write to a slot behind the window.
  pub window-update :
      (size n d h i : ℕ) (b : ℕ → A) (x : A)
      → h < size
      → n + d < size
      → i ≡ (h + (n + d)) % size
      → window size n h (update b i x) ≡ window size n h b
  unfolding window
  window-update size zero d h i b x p q e = refl
  window-update size (suc n) d h i b x p q e =
      ap₂ ◌∷◌ (update-ne b i h x (omega (arith, wrap_cases size h (suc n + d) p (omega arith)))) (
        window-update size n d ((h + 1) % size) i b x (mod-lt (h + 1) (omega arith)) (omega arith)
          (e ∙ ap (λ (t : ℕ). (h + t) % size) (omega arith) ∙ sym (wrap-suc size h (n + d))))

  -- The item at the end of a window.
  pub window-snoc :
      (size n h : ℕ) (b : ℕ → A)
      → h < size
      → window size (suc n) h b ≡ window size n h b ++ (b ((h + n) % size) ∷ [])
  unfolding window
  window-snoc size zero h b p =
      ap (λ (i : ℕ). b i ∷ [])
        (sym (mod-eq_of_lt {n = h + 0} {m = size} (omega arith) ∙ omega arith))
  window-snoc size (suc n) h b p =
      ap (λ t. b h ∷ t)
        (window-snoc size n ((h + 1) % size) b (mod-lt (h + 1) (omega arith))
          ∙ ap (λ (i : ℕ). window size n ((h + 1) % size) b ++ (b i ∷ [])) (wrap-suc size h n))

  -- A write to the slot behind the window, taken into it.
  pub window-push :
      (size n h t : ℕ) (b : ℕ → A) (x : A)
      → h < size
      → n < size
      → t ≡ (h + n) % size
      → window size (suc n) h (update b t x) ≡ window size n h b ++ (x ∷ [])
  window-push size n h t b x p q e =
      window-snoc size n h (update b t x) p
      ∙ ap₂ (λ xs (y : A). xs ++ (y ∷ []))
          (window-update size n 0 h t b x p (omega arith)
            (e ∙ ap (λ (i : ℕ). (h + i) % size) (omega arith)))
          (ap (update b t x) (sym e) ∙ update_self b t x)

  pub window_cong :
      (size : ℕ) {n n' h h' : ℕ} {b b' : ℕ → A}
      → n ≡ n'
      → h ≡ h'
      → b ≡ b'
      → window size n h b ≡ window size n' h' b'
  window_cong size p q r = λ i. window size (p i) (q i) (r i)
