-- ===== src/Sfpu/Rounding.antt =====
-- The error of SFPSTOCHRND when it rounds to the nearest.
use rv32_emu.Base.{
  ℕ, ◌+◌, ◌-◌, ◌/◌, ◌%◌, ◌^◌, ◌≤◌, ◌<◌, ◌≡◌, ◌≢◌, true, false, ◌==◌, leb, if◌then◌else◌, arith,
  Bool-cases, inl, inr, field,
}
use rv32_emu.Core.{Sfpu}
use rv32_emu.Sfpu.Lanes.{each_lane, when_enabled, lane_enabled, vc_of, vd_of, mod1_of, writable}
use rv32_emu.Sfpu.Moves.{advance_prng}
use rv32_emu.Sfpu.Arithmetic.{rounded, round_word, sfpstochrnd, stochrnd_lane}
use rv32_emu.Sfpu.Words.{write_own, write-others, word_view-lreg, loop-word}

-- A multiple of `2 ^ n` at most half of that above the word and less than that below it.
abbrev Near : ℕ → ℕ → ℕ → Type 0
Near n x y = (y % 2 ^ n ≡ 0) × (y ≤ x + 2 ^ n / 2) × (x < y + 2 ^ n / 2)

rounded-Near :
    (x : ℕ)
    → x < 2 ^ 32 - 2 ^ 16
    → Near 13 x (rounded 13 x (0x400000 / 2 ^ 10)) × Near 16 x (rounded 16 x (0x400000 / 2 ^ 7))
unfolding rounded
rounded-Near x h = (
  elim (Bool-cases (leb (0x400000 / 2 ^ 10) (x % 2 ^ 13))) [
    | inl up ↦ rw up (omega arith, ground arith, ground arith)
    | inr down ↦ rw down (omega arith, ground arith, ground arith)
  ],
  elim (Bool-cases (leb (0x400000 / 2 ^ 7) (x % 2 ^ 16))) [
    | inl up ↦ rw up (omega arith, ground arith, ground arith)
    | inr down ↦ rw down (omega arith, ground arith, ground arith)
  ],
)

-- The bits that FP16A and BF16 drop.
abbrev pub dropped : ℕ → ℕ
dropped mod1 = if mod1 == 0 then 13 else 16

round_word-Near :
    (mod1 x : ℕ)
    → mod1 ≤ 1
    → x < 2 ^ 32
    → field x 23 8 ≢ 0
    → field x 23 8 ≢ 255
    → Near (dropped mod1) x (round_word mod1 0x400000 x)
unfolding round_word
round_word-Near mod1 x h k some_exp finite =
    let mode_a : leb mod1 1 ≡ true = ground arith in
    let normal : (field x 23 8 == 0) ≡ false = ground arith in
    let finite' : (field x 23 8 == 255) ≡ false = ground arith in
    let (thirteen, sixteen) = rounded-Near x (omega arith) in
    elim (Bool-cases (mod1 == 0)) [
      | inl half ↦ rw (mode_a, normal, finite', half) thirteen
      | inr brain ↦ rw (mode_a, normal, finite', brain) sixteen
    ]

module _ (imm : ℕ) (s : Sfpu) (lane : ℕ) where
  -- An SFPSTOCHRND to FP16A or BF16 that rounds to the nearest writes in each enabled lane, for
  -- a word whose exponent is neither 0 nor 255, a word without the 13 or 16 bits that the format
  -- drops, at most half of their range above the word and less than half below it.
  pub sfpstochrnd-nearest :
      field imm 21 3 ≡ 0
      → mod1_of imm ≤ 1
      → vd_of imm < 8
      → lane < 32
      → lane_enabled s lane ≡ true
      → s.lreg (vc_of imm) lane < 2 ^ 32
      → field (s.lreg (vc_of imm) lane) 23 8 ≢ 0
      → field (s.lreg (vc_of imm) lane) 23 8 ≢ 255
      → let x = s.lreg (vc_of imm) lane in
        let y = (sfpstochrnd imm s).lreg (vd_of imm) lane in
        let n = dropped (mod1_of imm) in (y % 2 ^ n ≡ 0) × (y ≤ x + 2 ^ n / 2) × (x < y + 2 ^ n / 2)
  unfolding sfpstochrnd
  sfpstochrnd-nearest nearest mode low h on word some_exp finite =
      let vd : ℕ = vd_of imm in
      let f : (ℕ → ℕ) → ℕ = λ regs. round_word (mod1_of imm) 0x400000 (regs (vc_of imm)) in
      let may : writable vd ≡ true = ground arith in
      let changes : leb 12 vd ≡ false = ground arith in
      let body : ℕ → Sfpu → Sfpu = stochrnd_lane imm in
      let (value, _) = word_view-lreg vd f s (each_lane (when_enabled body) 32 0 s) lane on (
        loop-word vd f body (λ l t. rw (may, nearest) (write_own vd _ l (advance_prng l t)))
          (λ l t k ne. rw may (write-others vd _ l (advance_prng l t) k ne)) s lane h) in
      rw (changes, value)
        (round_word-Near (mod1_of imm) (s.lreg (vc_of imm) lane) mode word some_exp finite)
