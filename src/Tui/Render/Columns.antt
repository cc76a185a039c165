-- ===== src/Tui/Render/Columns.antt =====
-- internal/tui/render.go: the loop over a row ends, and each row of a region has its width.
use shevet.Prelude.{
  ℕ, suc, zero, ◌+◌, ◌≤◌, ◌<◌, ◌≡◌, refl, ap, ◌∙◌, inl, inr, true, false, not, ◌&&◌, Option, none,
  some, List, [], ◌∷◌, ◌++◌, append-nil, append_assoc, arith, ltb, ltb→lt, Bool-cases, if_true,
  if_false, if_cases, replicate, ℤ, pos, ◌+ℤ◌, clip, Bytes, codes, bytes_eq,
}
use shevet.Grid.{Cell, default_cell, Cursor, Grid}
use shevet.Tui.Render.{
  Piece, style, blank, grapheme, line_break, span, clipped, restyled, prepend, drawn, break_behind,
  cell_at, shown, row_from, rows_from, render_pieces, render_region, text_of,
}

abbrev pub columns : Piece → ℕ
columns (style s) = 0
columns blank = 1
columns (grapheme s n) = n
columns line_break = 0

-- The columns of the lines of some pieces, the first of which has some already.
pub widths : ℕ → List Piece → List ℕ
widths n [] = n ∷ []
widths n (style s ∷ ps) = widths n ps
widths n (blank ∷ ps) = widths (n + 1) ps
widths n (grapheme s k ∷ ps) = widths (n + k) ps
widths n (line_break ∷ ps) = n ∷ widths 0 ps

restyled-widths :
    (last c : Cell) (n : ℕ) (ps : List Piece) → widths n (restyled last c ++ ps) ≡ widths n ps
unfolding restyled widths
restyled-widths last c n ps = ground arith

-- A round's piece is as wide as the loop goes on by, and stays in the row.
drawn-widths :
    (content : Bytes) (k n : ℕ) (ps : List Piece)
    → widths n ((drawn content k).0 ∷ ps) ≡ widths (n + (drawn content k).1) ps
unfolding drawn widths
drawn-widths [] k n ps = refl
drawn-widths (b ∷ content) k n ps = refl

abbrev Fits : ℕ → ℕ → Bytes → ℕ → Type 0
Fits w rx s k = (rx + (drawn s k).1 ≤ w) × (0 < (drawn s k).1)

drawn-Fits :
    (w rx k : ℕ) (s : Bytes)
    → rx < w
    → 1 ≤ k
    → (not (bytes_eq s []) && ltb w (rx + k)) ≡ false
    → Fits w rx s k
unfolding drawn bytes_eq
drawn-Fits w rx k [] h l e = (omega arith, omega arith)
drawn-Fits w rx k (b ∷ s) h l e = (ground arith, omega arith)

clipped-Fits :
    (w rx : ℕ) (c : Cell) → rx < w → Fits w rx (clipped w rx c).content (span (clipped w rx c))
unfolding clipped
clipped-Fits w rx c h =
    if_cases (λ (x : Cell). Fits w rx x.content (span x))
      (not (bytes_eq c.content []) && ltb w (rx + span c)) (record c { content = [] }) c
      (λ _. unfold drawn in (omega arith, omega arith))
      (λ e. drawn-Fits w rx (span c) c.content h (omega arith) e)

-- The pieces of the row take the columns that are left of it, whatever follows them.
abbrev RowEnds : ℕ → ℕ → Option (List Piece) → Type 0
RowEnds w rx o =
    (ps : List Piece) × (o ≡ some ps) × ((qs : List Piece) → widths rx (ps ++ qs) ≡ widths w qs)

module _ (g : Grid) (cursor : Cursor) (x0 : ℤ) (w : ℕ) where
  cell-Fits :
      (y : ℤ) (rx : ℕ)
      → ltb rx w ≡ true
      → Fits w rx (cell_at g cursor x0 w y rx).content (span (cell_at g cursor x0 w y rx))
  unfolding cell_at
  cell-Fits y rx h = clipped-Fits w rx (shown g cursor (x0 +ℤ pos rx) y) (ltb→lt rx w h)

  row_from-ends :
      (fuel : ℕ) (y : ℤ) (rx : ℕ) (last : Cell)
      → rx ≤ w
      → w ≤ rx + fuel
      → RowEnds w rx (row_from g cursor x0 w fuel y rx last)
  unfolding row_from
  row_from-ends zero y rx last h k = (
    [],
    if_false (ltb rx w) none (some []) (ground arith),
    λ qs. ap (λ n. widths n qs) (omega arith),
  )
  row_from-ends (suc fuel) y rx last h k = elim (Bool-cases (ltb rx w)) [
    | inr over ↦
        ([], if_false (ltb rx w) _ (some []) over, λ qs. ap (λ n. widths n qs) (ground arith))
    | inl inside ↦
        let c = cell_at g cursor x0 w y rx in
        let d = drawn c.content (span c) in
        let (fits, onward) = cell-Fits y rx inside in
        let (ps, e, all) = row_from-ends fuel y (rx + d.1) c fits (omega (arith, k, onward)) in
        (
          (restyled last c ++ d.0 ∷ []) ++ ps,
          if_true (ltb rx w)
                (prepend (restyled last c ++ d.0 ∷ []) (row_from g cursor x0 w fuel y (rx + d.1) c))
                (some []) inside
              ∙ ap (prepend (restyled last c ++ d.0 ∷ [])) e
              ∙ (unfold prepend in refl),
          λ qs.
              ap (widths rx) (
                append_assoc (restyled last c ++ d.0 ∷ []) ps qs
                ∙ append_assoc (restyled last c) (d.0 ∷ []) (ps ++ qs))
              ∙ (restyled-widths last c rx (d.0 ∷ (ps ++ qs))
                  ∙ (drawn-widths c.content (span c) rx (ps ++ qs) ∙ all qs)),
        )
  ]

  row_ends : (y : ℤ) → RowEnds w 0 (row_from g cursor x0 w w y 0 default_cell)
  row_ends y = row_from-ends w y 0 default_cell (omega arith) (omega arith)

  reset_behind : List Piece → ℕ → List Piece
  reset_behind row n = row ++ style (codes "\u{1b}[0m") ∷ break_behind n

  rows_from-suc :
      (n : ℕ) (y : ℤ) (row : List Piece)
      → row_from g cursor x0 w w y 0 default_cell ≡ some row
      → rows_from g cursor x0 w (suc n) y
        ≡ prepend (reset_behind row n) (rows_from g cursor x0 w n (y +ℤ pos 1))
  unfolding rows_from reset_behind
  rows_from-suc n y row e = rw (e, rows_from) refl

  prepend-some : (ps qs : List Piece) → prepend ps (some qs) ≡ some (ps ++ qs)
  unfolding prepend
  prepend-some ps qs = refl

  rows_from-ends :
      (n : ℕ) (y : ℤ)
      → (ps : List Piece) × (rows_from g cursor x0 w (suc n) y ≡ some ps)
        × (widths 0 ps ≡ replicate (suc n) w)
  rows_from-ends zero y =
      let (row, e, all) = row_ends y in
      (
        reset_behind row 0 ++ [],
        rows_from-suc 0 y row e ∙ (unfold rows_from prepend in refl),
        ap (widths 0) (append-nil (reset_behind row 0))
            ∙ (unfold reset_behind break_behind widths in all (style (codes "\u{1b}[0m") ∷ [])),
      )
  rows_from-ends (suc n) y =
      let (row, e, all) = row_ends y in
      let (ps, f, below) = rows_from-ends n (y +ℤ pos 1) in
      (
        reset_behind row (suc n) ++ ps,
        rows_from-suc (suc n) y row e
            ∙ ap (prepend (reset_behind row (suc n))) f
            ∙ prepend-some (reset_behind row (suc n)) ps,
        split_row row ps all ∙ ap (λ r. w ∷ r) below,
      )
    where
      split_row :
          (row ps : List Piece)
          → ((qs : List Piece) → widths 0 (row ++ qs) ≡ widths w qs)
          → widths 0 (reset_behind row (suc n) ++ ps) ≡ w ∷ widths 0 ps
      split_row row ps all =
          unfold reset_behind break_behind widths in
          ap (widths 0) (append_assoc row (style (codes "\u{1b}[0m") ∷ line_break ∷ []) ps)
          ∙ all (style (codes "\u{1b}[0m") ∷ line_break ∷ ps)

-- Drawing a region of at least one row ends, wherever it stands and whatever the grid holds, and it
-- is as many lines as it has rows, each of exactly its columns.
pub render_region-ends :
    (g : Grid) (cursor : Cursor) (x0 y0 w : ℤ) (n : ℕ)
    → (ps : List Piece) × (render_pieces g cursor x0 y0 w (pos (suc n)) ≡ some ps)
      × (render_region g cursor x0 y0 w (pos (suc n)) ≡ some (text_of ps))
      × (widths 0 ps ≡ replicate (suc n) (clip w))
unfolding render_pieces render_region
render_region-ends g cursor x0 y0 w n =
    let (ps, e, widths_of) = rows_from-ends g cursor x0 (clip w) n y0 in
    (ps, e, rw (e, render_region) refl, widths_of)
