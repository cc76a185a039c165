-- ===== src/Tui/Layout/Fits.antt =====
-- internal/tui/layout.go: every card has a place, the cards fit, and the selected one is on screen.
use shevet.Prelude.{
  ℕ, ◌+◌, ◌-◌, ◌*◌, ◌/◌, ◌≤◌, ◌<◌, min, max, ◌≡◌, inl, inr, arith, ltb, ltb→lt, Bool-cases, ℤ, pos,
  ◌-ℤ◌, clip,
}
use native.Mathlib.Nat.{
  div-mul-le_self, div-le_self, mul-le-mul, mul-le-mul_right, le-div_iff_mul-le, lt-div-mul-add,
}
use shevet.Tui.Layout.{CardLayout, clamp, lay_out, layout_cards, row_offset}

quotient_le : (a b : ℕ) → a / b * b ≤ a
quotient_le a b = div-mul-le_self a b

quotient_lt : (a b : ℕ) → 0 < b → a < a / b * b + b
quotient_lt a b h = lt-div-mul-add h

clamp-bounds : (v lo hi : ℕ) → lo ≤ hi → (lo ≤ clamp v lo hi) × (clamp v lo hi ≤ hi)
clamp-bounds v lo hi h = ground arith

-- The rows are as few as take all cards.
rows_cover : (n c : ℕ) → 0 < c → (n ≤ (n + c - 1) / c * c) × ((n + c - 1) / c * c < n + c)
rows_cover n c h =
    (omega (arith, quotient_lt (n + c - 1) c h), omega (arith, quotient_le (n + c - 1) c))

row_of : (n c s : ℕ) → 0 < c → s < n → s / c < (n + c - 1) / c
row_of n c s h k = (le-div_iff_mul-le h).1 (omega (arith, quotient_le s c))

-- The columns of a width are one, or leave each its preferred width.
cols_room :
    (a n : ℕ)
    → 1 ≤ n
    → 8 ≤ a
    → (1 ≤ clamp (a / 46) 1 n) × (8 * clamp (a / 46) 1 n + 2 * (clamp (a / 46) 1 n - 1) ≤ a)
cols_room a n h k = (ground arith, ground arith)

width_fits :
    (a c : ℕ)
    → 1 ≤ c
    → 8 * c + 2 * (c - 1) ≤ a
    → c * max (min ((a - 2 * (c - 1)) / c) 84) 8 + 2 * (c - 1) ≤ a
width_fits a c h k =
    let q = (a - 2 * (c - 1)) / c in
    let wide : 8 ≤ q = (le-div_iff_mul-le h).1 (omega arith) in
    let fits : c * max (min q 84) 8 ≤ c * q = mul-le-mul (omega arith) (omega arith) in
    omega (arith, quotient_le (a - 2 * (c - 1)) c)

width_bound :
    (a n : ℕ)
    → 1 ≤ n
    → clamp (a / 46) 1 n * max (min ((a - 2 * (clamp (a / 46) 1 n - 1)) / clamp (a / 46) 1 n) 84) 8
        + 2 * (clamp (a / 46) 1 n - 1)
      ≤ max a 8
width_bound a n h = elim (Bool-cases (ltb a 8)) [
  | inl thin ↦
      let one : clamp (a / 46) 1 n ≡ 1 = ground arith in
      rw one (omega (arith, quotient_le a 1, ltb→lt a 8 thin))
  | inr wide ↦
      let room : 8 ≤ a = ground arith in
      let (some', fits) = cols_room a n h room in
      omega (arith, width_fits a (clamp (a / 46) 1 n) some' fits)
]

row_there_is : (h ch : ℕ) → ch ≤ h → 1 ≤ (h + 1) / (ch + 1)
row_there_is h ch k = (le-div_iff_mul-le (omega arith)).1 (omega arith)

height_fits : (h ch rows : ℕ) → ch ≤ h → min (max ((h + 1) / (ch + 1)) 1) rows * (ch + 1) ≤ h + 1
height_fits h ch rows k = go (row_there_is h ch k)
  where
    fewer : 1 ≤ (h + 1) / (ch + 1) → min (max ((h + 1) / (ch + 1)) 1) rows ≤ (h + 1) / (ch + 1)
    fewer l = omega arith

    le_trans : {a b c : ℕ} → a ≤ b → b ≤ c → a ≤ c
    le_trans x y = omega arith

    go : 1 ≤ (h + 1) / (ch + 1) → min (max ((h + 1) / (ch + 1)) 1) rows * (ch + 1) ≤ h + 1
    go l =
        let scaled : min (max ((h + 1) / (ch + 1)) 1) rows * (ch + 1)
            ≤ (h + 1) / (ch + 1) * (ch + 1) =
          mul-le-mul_right (ch + 1) (fewer l) in
        le_trans scaled (quotient_le (h + 1) (ch + 1))

row_offset-shows :
    (l : CardLayout) (selected : ℕ)
    → 1 ≤ l.visible_rows
    → l.visible_rows ≤ l.rows
    → selected / l.cols < l.rows
    → (row_offset l selected ≤ selected / l.cols)
      × (selected / l.cols < row_offset l selected + l.visible_rows)
      × (row_offset l selected + l.visible_rows ≤ l.rows)
unfolding row_offset
row_offset-shows l selected h k m = ground arith

row_there :
    (viewport_w viewport_h n : ℤ) (selected : ℕ)
    → selected < max (clip n) 1
    → selected / (layout_cards viewport_w viewport_h n).cols
      < (layout_cards viewport_w viewport_h n).rows
unfolding layout_cards lay_out
row_there viewport_w viewport_h n selected h =
    let m = max (clip n) 1 in
    let a = max (clip (viewport_w -ℤ pos 4)) 1 in
    row_of m (clamp (a / 46) 1 m) selected (clamp-bounds (a / 46) 1 m (omega arith)).0 h

-- What a layout promises for `n` cards in a width and a height.
pub record FitsIn (avail_w avail_h n : ℕ) (l : CardLayout) : Type 0 where
  pub places : n ≤ l.rows * l.cols
  pub some_column : 1 ≤ l.cols
  pub some_row : 1 ≤ l.visible_rows
  pub rows_there : l.visible_rows ≤ l.rows
  pub no_wider : l.cols * l.card_w + 2 * (l.cols - 1) ≤ max avail_w 8
  pub no_higher : l.visible_rows * (l.card_h + 1) ≤ avail_h + 1

lay_out-FitsIn : (a h n : ℕ) → 1 ≤ a → 5 ≤ h → 1 ≤ n → FitsIn a h n (lay_out a h n)
unfolding lay_out
lay_out-FitsIn a h n ha hh hn =
    let c = clamp (a / 46) 1 n in
    let rows = (n + c - 1) / c in
    let ch = clamp ((h - 1 * (rows - 1)) / rows) 5 18 in
    let one : 1 ≤ c = (clamp-bounds (a / 46) 1 n hn).0 in
    let some_rows : 1 ≤ rows = (le-div_iff_mul-le one).1 (omega arith) in
    record {
      places = (rows_cover n c one).0;
      some_column = one;
      some_row = omega arith;
      rows_there = omega arith;
      no_wider = width_bound a n hn;
      no_higher = height_fits h ch rows (omega (arith, div-le_self (h - 1 * (rows - 1)) rows));
    }

-- In any viewport, for any number of Panes: every card has a place in the grid, a row at least is
-- on screen and no more than there are, the rows on screen with the gaps between them are no higher
-- than the body, and the columns with theirs are no wider than the viewport without its margins, or
-- than 8.
pub layout_cards-FitsIn :
    (viewport_w viewport_h n : ℤ)
    → FitsIn
        (max (clip (viewport_w -ℤ pos 4)) 1)
        (max (clip (viewport_h -ℤ pos 3)) 5)
        (max (clip n) 1)
        (layout_cards viewport_w viewport_h n)
unfolding layout_cards
layout_cards-FitsIn viewport_w viewport_h n =
    lay_out-FitsIn (max (clip (viewport_w -ℤ pos 4)) 1) (max (clip (viewport_h -ℤ pos 3)) 5)
      (max (clip n) 1) (omega arith) (omega arith) (omega arith)

-- The selected card's row is on screen, in a layout for as many cards, and only rows that are there
-- are shown.
pub row_offset-layout_cards :
    (viewport_w viewport_h n : ℤ) (selected : ℕ)
    → selected < max (clip n) 1
    → (row_offset (layout_cards viewport_w viewport_h n) selected
        ≤ selected / (layout_cards viewport_w viewport_h n).cols)
      × (selected / (layout_cards viewport_w viewport_h n).cols
          < row_offset (layout_cards viewport_w viewport_h n) selected
            + (layout_cards viewport_w viewport_h n).visible_rows)
      × (row_offset (layout_cards viewport_w viewport_h n) selected
            + (layout_cards viewport_w viewport_h n).visible_rows
          ≤ (layout_cards viewport_w viewport_h n).rows)
row_offset-layout_cards viewport_w viewport_h n selected h =
    let l = layout_cards viewport_w viewport_h n in
    let fits = layout_cards-FitsIn viewport_w viewport_h n in
    row_offset-shows l selected fits.some_row fits.rows_there
      (row_there viewport_w viewport_h n selected h)
