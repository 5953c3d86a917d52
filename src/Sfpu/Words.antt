-- ===== src/Sfpu/Words.antt =====
-- What a lane holds after an instruction that writes a word to one register of each enabled lane,
-- and SFPCAST there and back.
use rv32_emu.Base.{
  ℕ, ◌+◌, ◌-◌, ◌^◌, ◌<◌, ◌≡◌, ◌≢◌, refl, ap, ◌∙◌, fun_ext, true, false, not, ◌&&◌, ◌||◌, ◌==◌,
  if◌then◌else◌, update, update_self, arith, Bool-cases, inl, inr, bit_or,
}
use rv32_emu.Base.BitOps.{bit_or_add}
use rv32_emu.Core.{Sfpu}
use rv32_emu.Floats.{FloatOps}
use rv32_emu.Sfpu.Lanes.{
  each_lane, when_enabled, write_lreg, write_checked, lane_enabled, vc_of, vd_of, mod1_of, writable,
  read_only,
}
use rv32_emu.Sfpu.Integers.{negative, negate}
use rv32_emu.Sfpu.Arithmetic.{cast_word, sfpcast}
use rv32_emu.Sfpu.Views.{LaneView, view, loop-view, view-if, if-others}

-- Two's complement to sign and magnitude and back.
cast_word-cast_word :
    (ops : FloatOps) (c : ℕ) → c < 2 ^ 32 → cast_word ops 3 (cast_word ops 3 c) ≡ c
unfolding cast_word
cast_word-cast_word ops c h = elim (Bool-cases (negative c)) [
  | inl neg ↦ elim (Bool-cases (c == 2 ^ 31)) [
    | inl least ↦ let e : c ≡ 2 ^ 31 = ground arith in rw e refl
    | inr more ↦
        let magnitude : ℕ = negate c in
        let small : magnitude < 2 ^ 31 = ground arith in
        let or_add : bit_or 0x80000000 magnitude ≡ 0x80000000 + magnitude =
          bit_or_add 31 1 magnitude small in
        let again : negate (0x80000000 + magnitude) ≡ c - 2 ^ 31 = ground arith in
        let low : c - 2 ^ 31 < 2 ^ 31 = omega arith in
        let back : bit_or 0x80000000 (c - 2 ^ 31) ≡ 0x80000000 + (c - 2 ^ 31) =
          bit_or_add 31 1 (c - 2 ^ 31) low in
        let neg' : negative (0x80000000 + magnitude) ≡ true = ground arith in
        rw (neg, or_add, neg', again, back) (ground arith)
  ]
  | inr pos ↦ rw (pos, pos) refl
]

-- A word in a register of the lane.
pub write_own :
    (r v l : ℕ) (s : Sfpu)
    → view l (write_lreg r l v s) ≡ record (view l s) { lreg = update (view l s).lreg r v }
write_own r v l s = ap (λ (q : ℕ → ℕ). record (view l s) { lreg = q }) (fun_ext λ k. ground arith)

pub write-others :
    (r v l : ℕ) (s : Sfpu) (lane : ℕ) → lane ≢ l → view lane (write_lreg r l v s) ≡ view lane s
write-others r v l s lane ne =
    ap (λ (q : ℕ → ℕ). record (view lane s) { lreg = q }) (fun_ext λ k. ground arith)

-- An enabled lane's own word, from its registers.
abbrev pub word_view : ℕ → ((ℕ → ℕ) → ℕ) → LaneView → LaneView
word_view r f v =
    if v.used && not v.flags then v else record v { lreg = update v.lreg r (f v.lreg) }

module _ (r : ℕ) (f : (ℕ → ℕ) → ℕ) (body : ℕ → Sfpu → Sfpu)
    (own : (l : ℕ) (s : Sfpu)
      → view l (body l s)
        ≡ record (view l s) { lreg = update (view l s).lreg r (f (view l s).lreg) })
    (others : (l : ℕ) (s : Sfpu) (lane : ℕ) → lane ≢ l → view lane (body l s) ≡ view lane s) where
  pub loop-word :
      (s : Sfpu) (lane : ℕ)
      → lane < 32
      → view lane (each_lane (when_enabled body) 32 0 s) ≡ word_view r f (view lane s)
  loop-word s lane h =
      loop-view (when_enabled body) (word_view r f)
        (λ l t. view-if (t.use_lane_flags l && not (t.lane_flags l)) l t (body l t) refl (own l t))
        (λ l t k ne.
          if-others (t.use_lane_flags l && not (t.lane_flags l)) k t t (body l t) refl
            (others l t k ne))
        32 0 s lane (omega arith) (omega arith)

-- Its registers, for an enabled lane.
pub word_view-lreg :
    (r : ℕ) (f : (ℕ → ℕ) → ℕ) (s t : Sfpu) (lane : ℕ)
    → lane_enabled s lane ≡ true
    → view lane t ≡ word_view r f (view lane s)
    → (t.lreg r lane ≡ f (λ k. s.lreg k lane)) × (lane_enabled t lane ≡ true)
word_view-lreg r f s t lane on e =
    let off : s.use_lane_flags lane && not (s.lane_flags lane) ≡ false = ground arith in
    let e' : view lane t
        ≡ record (view lane s) { lreg = update (view lane s).lreg r (f (view lane s).lreg) } =
      e ∙ rw off refl in
    (
      ap (λ (v : LaneView). v.lreg r) e' ∙ update_self (view lane s).lreg r _,
      ap (λ (v : LaneView). not v.used || v.flags) e' ∙ on,
    )

module _ (ops : FloatOps) where
  sfpcast-word :
      (imm : ℕ) (s : Sfpu) (lane : ℕ)
      → vd_of imm < 8
      → lane < 32
      → lane_enabled s lane ≡ true
      → ((sfpcast ops imm s).lreg (vd_of imm) lane
          ≡ cast_word ops (mod1_of imm) (s.lreg (vc_of imm) lane))
        × (lane_enabled (sfpcast ops imm s) lane ≡ true)
  unfolding sfpcast
  sfpcast-word imm s lane low h on =
      let vd : ℕ = vd_of imm in
      let f : (ℕ → ℕ) → ℕ = λ regs. cast_word ops (mod1_of imm) (regs (vc_of imm)) in
      let may : writable vd ≡ true = ground arith in
      let changes : read_only vd ≡ false = ground arith in
      let body : ℕ → Sfpu → Sfpu =
        write_checked vd (λ t l. cast_word ops (mod1_of imm) (t.lreg (vc_of imm) l)) in
      rw changes (
        word_view-lreg vd f s (each_lane (when_enabled body) 32 0 s) lane on (
          loop-word vd f body (λ l t. rw may (write_own vd _ l t))
            (λ l t k ne. rw may (write-others vd _ l t k ne)) s lane h))

  -- SFPCAST between two's complement and sign and magnitude, from a register to a writable one
  -- and from that to a third, gives an enabled lane of the third the 32-bit word that the lane
  -- of the first held.
  pub sfpcast-sfpcast :
      (imm imm' : ℕ) (s : Sfpu) (lane : ℕ)
      → mod1_of imm ≡ 3
      → mod1_of imm' ≡ 3
      → vd_of imm < 8
      → vd_of imm' < 8
      → vc_of imm' ≡ vd_of imm
      → lane < 32
      → lane_enabled s lane ≡ true
      → s.lreg (vc_of imm) lane < 2 ^ 32
      → (sfpcast ops imm' (sfpcast ops imm s)).lreg (vd_of imm') lane ≡ s.lreg (vc_of imm) lane
  sfpcast-sfpcast imm imm' s lane mode mode' low low' same h on word =
      let mid : Sfpu = sfpcast ops imm s in
      let (first, on') = sfpcast-word imm s lane low h on in
      let (second, _) = sfpcast-word imm' mid lane low' h on' in
      second
      ∙ rw (mode', same, first, mode) (cast_word-cast_word ops (s.lreg (vc_of imm) lane) word)
