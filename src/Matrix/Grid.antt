-- ===== src/Matrix/Grid.antt =====
-- Loops over the cells of a register file: rows of 16 words, written cell by cell.
use rv32_emu.Base.{
  ℕ, zero, suc, ◌+◌, ◌-◌, ◌<◌, ◌≡◌, refl, ap, ◌∙◌, Bool, true, false, ◌&&◌, ◌==◌, ltb, leb,
  if◌then◌else◌, update, arith, Bool-cases, inl, inr,
}
use native.Mathlib.Decide.{ℕ_discrete}

abbrev pub row_size : ℕ
row_size = 16

abbrev pub Grid : Type 0
Grid = ℕ → ℕ → ℕ

-- `for (i = from; i < from + n; i++) ...`
unfoldable pub each {ℓ} : {S : Type ℓ} → (ℕ → S → S) → ℕ → ℕ → S → S
each body zero from s = s
each body (suc n) from s = each body n (suc from) (body from s)

abbrev pub set_cell : ℕ → ℕ → ℕ → Grid → Grid
set_cell r c v g = update g r (update (g r) c v)

-- `for (j = 0; j < ROW_SIZE; j++) grid[row][j] = ...`, from the column and the old word.
abbrev pub write_cell : ℕ → (ℕ → ℕ → ℕ) → ℕ → Grid → Grid
write_cell row value j g = set_cell row j (value j (g row j)) g

unfoldable pub write_row : ℕ → (ℕ → ℕ → ℕ) → Grid → Grid
unfolding each
write_row row value = each (write_cell row value) row_size 0

-- A loop over the rows from `base` on, less those that the guard skips.
abbrev pub write_row_if : ℕ → (ℕ → Bool) → (ℕ → ℕ → ℕ → ℕ) → ℕ → Grid → Grid
write_row_if base inside value i g = if inside i then write_row (base + i) (value i) g else g

unfoldable pub write_rows : ℕ → ℕ → (ℕ → Bool) → (ℕ → ℕ → ℕ → ℕ) → Grid → Grid
unfolding each write_row
write_rows n base inside value = each (write_row_if base inside value) n 0

cells-cell :
    (row : ℕ) (value : ℕ → ℕ → ℕ) (n from : ℕ) (g : Grid) (r c : ℕ)
    → each (write_cell row value) n from g r c
      ≡ (if r == row && (leb from c && ltb c (from + n)) then value c (g r c) else g r c)
unfolding each
cells-cell row value zero from g r c = ground arith
cells-cell row value (suc n) from g r c =
    cells-cell row value n (suc from) (write_cell row value from g) r c ∙ ground arith

-- What a row holds after its loop.
pub write_row-cell :
    (row : ℕ) (value : ℕ → ℕ → ℕ) (g : Grid) (r c : ℕ)
    → write_row row value g r c ≡ (if r == row && ltb c row_size then value c (g r c) else g r c)
unfolding write_row
write_row-cell row value g r c = cells-cell row value 16 0 g r c ∙ ground arith

row_if-cell :
    (base : ℕ) (inside : ℕ → Bool) (value : ℕ → ℕ → ℕ → ℕ) (i : ℕ) (g : Grid) (r c : ℕ)
    → write_row_if base inside value i g r c
      ≡ (if r == base + i && (inside i && ltb c row_size) then value i c (g r c) else g r c)
row_if-cell base inside value i g r c = elim (Bool-cases (inside i)) [
  | inl yes_ ↦ rw yes_ (write_row-cell (base + i) (value i) g r c)
  | inr no_ ↦ rw no_ (ground arith)
]

rows-cell :
    (base : ℕ) (inside : ℕ → Bool) (value : ℕ → ℕ → ℕ → ℕ) (n from : ℕ) (g : Grid) (r c : ℕ)
    → each (write_row_if base inside value) n from g r c ≡ (
        if leb (base + from) r && (ltb r (base + from + n) && (inside (r - base) && ltb c row_size))
        then value (r - base) c (g r c)
        else g r c)
unfolding each
rows-cell base inside value zero from g r c = ground arith
rows-cell base inside value (suc n) from g r c =
    rows-cell base inside value n (suc from) (write_row_if base inside value from g) r c
    ∙ (let one = row_if-cell base inside value from g r c in
        elim (ℕ_discrete r (base + from)) [
          | yes e ↦
              let here : r - base ≡ from = omega arith in
              let not_later : leb (base + suc from) r ≡ false = ground arith in
              let reached : leb (base + from) r ≡ true = ground arith in
              let before_end : ltb r (base + from + suc n) ≡ true = ground arith in
              let same : (r == base + from) ≡ true = ground arith in
              rw (not_later, reached, before_end, here) (one ∙ rw same refl)
          | no ne ↦
              let other : (r == base + from) ≡ false = ground arith in
              let untouched : write_row_if base inside value from g r c ≡ g r c =
                one ∙ rw other refl in
              let start : leb (base + suc from) r ≡ leb (base + from) r = ground arith in
              let end : base + suc from + n ≡ base + from + suc n = omega arith in
              rw (untouched, start, end) refl
        ])

-- What the rows hold after the loop.
pub write_rows-cell :
    (n base : ℕ) (inside : ℕ → Bool) (value : ℕ → ℕ → ℕ → ℕ) (g : Grid) (r c : ℕ)
    → write_rows n base inside value g r c ≡ (
        if leb base r && (ltb r (base + n) && (inside (r - base) && ltb c row_size))
        then value (r - base) c (g r c)
        else g r c)
unfolding write_rows
write_rows-cell n base inside value g r c =
    let start : base + 0 ≡ base = omega arith in
    rows-cell base inside value n 0 g r c ∙ rw start refl

-- Without rows to skip.
pub write_rows-full :
    (n base : ℕ) (inside : ℕ → Bool) (value : ℕ → ℕ → ℕ → ℕ) (g : Grid)
    → ((i : ℕ) → i < n → inside i ≡ true)
    → (r c : ℕ) → c < row_size
    → write_rows n base inside value g r c
      ≡ (if leb base r && ltb r (base + n) then value (r - base) c (g r c) else g r c)
write_rows-full n base inside value g all r c h =
    write_rows-cell n base inside value g r c
    ∙ (let column : ltb c row_size ≡ true = ground arith in
        elim (Bool-cases (leb base r && ltb r (base + n))) [
          | inl in_rows ↦
              let reached : leb base r ≡ true = ground arith in
              let before_end : ltb r (base + n) ≡ true = ground arith in
              rw (reached, before_end, all (r - base) (ground arith), column) refl
          | inr outside ↦ ground arith
        ])

-- The last turn of a loop.
pub each-last {ℓ} :
    {S : Type ℓ} (body : ℕ → S → S) (n from : ℕ) (s : S)
    → each body (suc n) from s ≡ body (from + n) (each body n from s)
unfolding each
each-last body zero from s = ap (λ (i : ℕ). body i s) (omega arith)
each-last body (suc n) from s =
    each-last body n (suc from) (body from s)
    ∙ ap (λ (i : ℕ). body i (each body n (suc from) (body from s))) (omega arith)
