-- ===== src/Tui/Layout.antt =====
-- internal/tui/layout.go: the grid of cards. What `max` bounds from below by a positive number is
-- taken as a natural number, negative ints as 0 in between.
pub mod Fits
use shevet.Prelude.{ℕ, ◌+◌, ◌-◌, ◌*◌, ◌/◌, min, max, ℤ, pos, ◌-ℤ◌, clip}

abbrev pub header_rows : ℕ
header_rows = 2

abbrev pub footer_rows : ℕ
footer_rows = 1

abbrev pub margin_x : ℕ
margin_x = 2

abbrev pub gutter_x : ℕ
gutter_x = 2

abbrev pub gutter_y : ℕ
gutter_y = 1

abbrev pub target_card_w : ℕ
target_card_w = 46

abbrev pub max_card_w : ℕ
max_card_w = 84

abbrev pub min_card_h : ℕ
min_card_h = 5

abbrev pub max_card_h : ℕ
max_card_h = 18

-- `cardLayout`
pub record CardLayout : Type 0 where
  pub cols : ℕ
  pub rows : ℕ
  pub card_w : ℕ
  pub card_h : ℕ
  pub visible_rows : ℕ
  pub avail_h : ℕ

-- `clamp`
abbrev pub clamp : ℕ → ℕ → ℕ → ℕ
clamp v lo hi = min (max v lo) hi

-- `layoutCards`, behind its first three lines.
unfoldable pub lay_out : ℕ → ℕ → ℕ → CardLayout
lay_out avail_w avail_h n =
    let cols = clamp (avail_w / target_card_w) 1 n in
    let card_w = min ((avail_w - gutter_x * (cols - 1)) / cols) max_card_w in
    let rows = (n + cols - 1) / cols in
    let card_h = clamp ((avail_h - gutter_y * (rows - 1)) / rows) min_card_h max_card_h in
    let visible = max ((avail_h + gutter_y) / (card_h + gutter_y)) 1 in
    record {
      cols = cols;
      rows = rows;
      card_w = max card_w 8;
      card_h = card_h;
      visible_rows = min visible rows;
      avail_h = avail_h;
    }

unfoldable pub layout_cards : ℤ → ℤ → ℤ → CardLayout
unfolding lay_out ◌-ℤ◌
layout_cards viewport_w viewport_h n =
    lay_out (max (clip (viewport_w -ℤ pos (2 * margin_x))) 1)
      (max (clip (viewport_h -ℤ pos (header_rows + footer_rows))) min_card_h) (max (clip n) 1)

-- `rowOffset`
unfoldable pub row_offset : CardLayout → ℕ → ℕ
row_offset l selected = clamp (selected / l.cols + 1 - l.visible_rows) 0 (l.rows - l.visible_rows)
