-- ===== src/Matrix/Transposed.antt =====
-- TRNSPSRCB transposes 16 rows of SrcB in place.
use rv32_emu.Base.{
  update_self, ℕ, zero, suc, ◌+◌, ◌-◌, ◌≤◌, ◌<◌, ◌≡◌, ◌≢◌, refl, ap, ◌∙◌, true, false, ◌&&◌, ◌==◌,
  ltb, leb, if◌then◌else◌, update, arith, Bool-cases, inl, inr,
}
use native.Mathlib.Decide.{ℕ_discrete}
use rv32_emu.Core.{Core}
use rv32_emu.Matrix.Grid.{Grid, each, each-last}
use rv32_emu.Matrix.Moves.{swap_cells, swap_row, transpose, tttrnspsrcb}

swap_cells-cell :
    (i j : ℕ) (g : Grid) (r c : ℕ)
    → j < i
    → swap_cells i j g r c ≡ (
        if r == 16 + i && c == j
        then g (16 + j) i
        else if r == 16 + j && c == i
        then g (16 + i) j
        else g r c)
swap_cells-cell i j g r c h = ground arith

-- What the turns of the inner loop of row `i` for the columns from `from` on leave in a cell: the
-- word from across the diagonal in the row, in the column, or the old one.
abbrev swapped : ℕ → ℕ → ℕ → ℕ → ℕ → ℕ → ℕ → ℕ → ℕ
swapped i n from r c row column old =
    if r == 16 + i && (leb from c && ltb c (from + n))
    then row
    else if c == i && (leb (16 + from) r && ltb r (16 + from + n))
    then column
    else old

module _ (i n from r c : ℕ) (h : from + suc n ≤ i) where
  -- One turn more: `old'` is the cell after the first of them.
  turn_row :
      (row row' column column' old old' : ℕ)
      → r ≡ 16 + i
      → (c ≢ from → row' ≡ row)
      → (c ≡ from → old' ≡ row)
      → (c ≢ from → old' ≡ old)
      → swapped i n (suc from) r c row' column' old' ≡ swapped i (suc n) from r c row column old
  turn_row row row' column column' old old' e later now never = elim (ℕ_discrete c from) [
    | yes ec ↦ let o = now ec in ground arith
    | no nc ↦ let w = later nc in let o = never nc in ground arith
  ]

  turn_column :
      (row row' column column' old old' : ℕ)
      → r ≢ 16 + i
      → (16 ≤ r → r ≢ 16 + from → column' ≡ column)
      → (r ≡ 16 + from → c ≡ i → old' ≡ column)
      → (c ≢ i → old' ≡ old)
      → (r ≢ 16 + from → old' ≡ old)
      → swapped i n (suc from) r c row' column' old' ≡ swapped i (suc n) from r c row column old
  turn_column row row' column column' old old' ne later now left right =
      elim (ℕ_discrete r (16 + from)) [
        | yes er ↦ elim (ℕ_discrete c i) [
          | yes ec ↦ let o = now er ec in ground arith
          | no nc ↦ let o = left nc in ground arith
        ]
        | no nr ↦
            let o = right nr in
            elim (Bool-cases (leb 16 r)) [
              | inl b ↦ let w = later (ground arith) nr in ground arith
              | inr b ↦ ground arith
            ]
      ]

swaps-cell :
    (i n from : ℕ) (g : Grid) (r c : ℕ)
    → from + n ≤ i
    → each (swap_cells i) n from g r c
      ≡ swapped i n from r c (g (16 + c) i) (g (16 + i) (r - 16)) (g r c)
unfolding each
swaps-cell i zero from g r c h = ground arith
swaps-cell i (suc n) from g r c h =
    let g' : Grid = swap_cells i from g in
    let cell : (r' c' : ℕ)
        → g' r' c' ≡ (
            if r' == 16 + i && c' == from
            then g (16 + from) i
            else if r' == 16 + from && c' == i
            then g (16 + i) from
            else g r' c') =
      λ r' c'. swap_cells-cell i from g r' c' (omega arith) in
    swaps-cell i n (suc from) g' r c (omega arith) ∙ elim (ℕ_discrete r (16 + i)) [
      | yes e ↦
          turn_row i n from r c h (g (16 + c) i) (g' (16 + c) i) (g (16 + i) (r - 16))
            (g' (16 + i) (r - 16)) (g r c) (g' r c) e (λ nc. cell (16 + c) i ∙ ground arith)
            (λ ec. let w : g (16 + from) i ≡ g (16 + c) i = rw ec refl in cell r c ∙ ground arith)
            (λ nc. cell r c ∙ ground arith)
      | no ne ↦
          turn_column i n from r c h (g (16 + c) i) (g' (16 + c) i) (g (16 + i) (r - 16))
            (g' (16 + i) (r - 16)) (g r c) (g' r c) ne
            (λ le nr. cell (16 + i) (r - 16) ∙ ground arith)
            (λ er ec.
              let w : g (16 + i) from ≡ g (16 + i) (r - 16) =
                rw er (ap (g (16 + i)) (omega arith)) in
              cell r c ∙ ground arith)
            (λ nc. cell r c ∙ ground arith) (λ nr. cell r c ∙ ground arith)
    ]

-- After the first `n` turns of the outer loop.
rows-cell :
    (n : ℕ) (g : Grid) (r c : ℕ)
    → each swap_row n 0 g r c
      ≡ (if ltb c n && (leb 16 r && ltb r (16 + n)) then g (16 + c) (r - 16) else g r c)
unfolding each
rows-cell zero g r c = ground arith
rows-cell (suc n) g r c =
    let before : Grid = each swap_row n 0 g in
    let row : before (16 + c) n ≡ g (16 + c) n = rows-cell n g (16 + c) n ∙ ground arith in
    let column : before (16 + n) (r - 16) ≡ g (16 + n) (r - 16) =
      rows-cell n g (16 + n) (r - 16) ∙ ground arith in
    ap (λ (f : Grid). f r c) (each-last swap_row n 0 g)
    ∙ ap (λ (i : ℕ). swap_row i before r c) {x = 0 + n} {y = n} (omega arith)
    ∙ swaps-cell n n 0 before r c (omega arith)
    ∙ rw (row, column, rows-cell n g r c)
        (elim (ℕ_discrete r (16 + n)) [
          | yes e ↦
              let across : g (16 + c) n ≡ g (16 + c) (r - 16) = ap (g (16 + c)) (omega arith) in
              elim (ℕ_discrete c n) [
                | yes ec ↦
                    let corner : g r c ≡ g (16 + c) (r - 16) =
                      rw (e, ec) (ap (g (16 + n)) (omega arith)) in
                    ground arith
                | no nc ↦ ground arith
              ]
          | no ne ↦ elim (ℕ_discrete c n) [
            | yes ec ↦
                let across : g (16 + n) (r - 16) ≡ g (16 + c) (r - 16) = rw ec refl in ground arith
            | no nc ↦ ground arith
          ]
        ])

transpose-cell :
    (g : Grid) (r c : ℕ)
    → transpose g r c ≡ (if ltb c 16 && (leb 16 r && ltb r 32) then g (16 + c) (r - 16) else g r c)
unfolding transpose
transpose-cell = rows-cell 16

transpose-transpose : (g : Grid) (r c : ℕ) → transpose (transpose g) r c ≡ g r c
transpose-transpose g r c =
    transpose-cell (transpose g) r c
    ∙ rw (transpose-cell g (16 + c) (r - 16), transpose-cell g r c)
        (elim (Bool-cases (ltb c 16 && (leb 16 r && ltb r 32))) [
          | inl inside ↦
              let back : g (16 + (r - 16)) (16 + c - 16) ≡ g r c =
                ap (λ (x : ℕ). g x (16 + c - 16)) {x = 16 + (r - 16)} {y = r} (ground arith)
                ∙ ap (g r) (omega arith) in
              ground arith
          | inr outside ↦ rw outside refl
        ])

-- A grid of a bank replaced.
bank-cell :
    (s : ℕ → Grid) (k : ℕ) (g : Grid) (b r c : ℕ)
    → update s k g b r c ≡ (if b == k then g r c else s b r c)
bank-cell s k g b r c = ground arith

module _ {D : Type 0} (core : Core D) (imm tid : ℕ) where
  -- TRNSPSRCB completes, exchanges the cells (16 + i, j) and (16 + j, i), for i and j below 16,
  -- of the matrix unit's bank of SrcB, and leaves every other cell of both banks; a second one
  -- restores every cell.
  pub tttrnspsrcb-cell :
      (b r c : ℕ)
      → let after = tttrnspsrcb core imm tid in
        let inside = b == core.banks.math_srcb_bank && (ltb c 16 && (leb 16 r && ltb r 32)) in
        (after.1 ≡ true)
        × (after.0.srcb b r c ≡ (if inside then core.srcb b (16 + c) (r - 16) else core.srcb b r c))
        × ((tttrnspsrcb after.0 imm tid).0.srcb b r c ≡ core.srcb b r c)
  unfolding tttrnspsrcb
  tttrnspsrcb-cell b r c =
      let k : ℕ = core.banks.math_srcb_bank in
      let once : ℕ → Grid = update core.srcb k (transpose (core.srcb k)) in
      let first = bank-cell core.srcb k (transpose (core.srcb k)) b r c in
      let second = bank-cell once k (transpose (once k)) b r c in
      let same : once k ≡ transpose (core.srcb k) = update_self core.srcb k _ in
      elim (ℕ_discrete b k) [
        | yes e ↦
            let yes_ : (b == k) ≡ true = ground arith in
            (
              refl,
              first ∙ rw (yes_, e) (transpose-cell (core.srcb k) r c),
              second ∙ rw (yes_, same, e) (transpose-transpose (core.srcb k) r c),
            )
        | no ne ↦
            let no_ : (b == k) ≡ false = ground arith in
            (refl, first ∙ rw no_ refl, second ∙ rw no_ refl)
      ]
