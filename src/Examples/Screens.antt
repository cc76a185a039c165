-- ===== src/Examples/Screens.antt =====
-- Tests and instances for internal/emu and internal/tui/view.go.
use shevet.Prelude.{
  ℕ, suc, zero, ◌+◌, ◌-◌, ◌*◌, ◌≤◌, ◌<◌, min, ◌≡◌, refl, ap, inr, Bool, true, false, not, ◌&&◌,
  ◌||◌, Option, none, some, List, [], ◌∷◌, ◌++◌, map, arith, ltb, leb, ◌==◌, if◌then◌else◌, leb→le,
  if_cases, length, replicate, length-append, ℤ, pos, Bytes, codes, join,
}
use shevet.Grid.{default_cell, at, new}
use shevet.Emu.{EmulatorLaws}
use shevet.Emu.Adapter.{
  Style, VtCell, blank_cell, Vt, adapter, convert_cell, convert_attrs, convert_color, take_snapshot,
  VtEmulator,
}
use shevet.Grid.Bounds.{new-IsGrid}
use shevet.Emu.Adapter.Cells.{Shows}
use shevet.Emu.Adapter.Laws.{VtLaws, adapter-EmulatorLaws}
use shevet.Tui.Focus.{PaneRef}
use shevet.Tui.Layout.{layout_cards, row_offset}
use shevet.Tui.Card.{border, title, Ansi, card_top, card_bottom, crop}
use shevet.Tui.Card.Frame.{
  AnsiLaws, IsFrame, line_char, cut_char, corner_1, corner_2, corner_3, corner_4, Columns, empty,
  letter, framed, Segments, ended, styled, printable-Columns, card-layout_cards,
}
use shevet.Tui.Card.Tiles.{shown_rows, row_panes, concat, numbers, shown_rows-layout_cards}

shown_rows-layout_cards_example :
    (shown_rows (layout_cards (pos 100) (pos 24) (pos 9)) 9 7
      ≡ map (row_panes 9 (layout_cards (pos 100) (pos 24) (pos 9)).cols) (
          numbers
            (row_offset (layout_cards (pos 100) (pos 24) (pos 9)) 7)
            (layout_cards (pos 100) (pos 24) (pos 9)).visible_rows))
    × (row_offset (layout_cards (pos 100) (pos 24) (pos 9)) 7
          + (layout_cards (pos 100) (pos 24) (pos 9)).visible_rows
        ≤ (layout_cards (pos 100) (pos 24) (pos 9)).rows)
    × (concat (shown_rows (layout_cards (pos 100) (pos 24) (pos 9)) 9 7) ≡ numbers 2 6)
    × (2 ≤ 7)
    × (7 < 2 + 6)
shown_rows-layout_cards_example =
    shown_rows-layout_cards (pos 100) (pos 24) 9 7 2 6 (omega arith) begins_row counted
  where
    begins_row :
        2
        ≡ row_offset (layout_cards (pos 100) (pos 24) (pos 9)) 7
          * (layout_cards (pos 100) (pos 24) (pos 9)).cols
    begins_row = unfold row_offset in unfold layout_cards in refl

    counted :
        6
        ≡ min
            ((layout_cards (pos 100) (pos 24) (pos 9)).visible_rows
              * (layout_cards (pos 100) (pos 24) (pos 9)).cols)
            (9 - 2)
    counted = unfold layout_cards in refl

tests_shown_rows :
    shown_rows (layout_cards (pos 100) (pos 24) (pos 9)) 9 7
    ≡ (2 ∷ 3 ∷ []) ∷ (4 ∷ 5 ∷ []) ∷ (6 ∷ 7 ∷ []) ∷ []
unfolding shown_rows layout_cards
tests_shown_rows = refl

-- A styling library without styles, which measures a column for each byte that begins a character.
abbrev begins : ℕ → ℕ
begins c = if leb 128 c && ltb c 192 then 0 else 1

columns : Bytes → ℕ
columns [] = 0
columns (c ∷ cs) = begins c + columns cs

columns-append : (s t : Bytes) → columns (s ++ t) ≡ columns s + columns t
unfolding columns
columns-append [] t = omega arith
columns-append (c ∷ s) t = omega (arith, columns-append s t)

-- A text that is too wide becomes dots.
cut_columns : Bytes → ℕ → Bytes
unfolding columns
cut_columns s n = if leb (columns s) n then s else replicate n 46

columns-frame : {f : Bytes} → IsFrame f → columns f ≡ 1
unfolding columns
columns-frame line_char = refl
columns-frame cut_char = refl
columns-frame corner_1 = refl
columns-frame corner_2 = refl
columns-frame corner_3 = refl
columns-frame corner_4 = refl

columns-letter : (c : ℕ) → (leb 32 c && leb c 126) ≡ true → begins c ≡ 1
columns-letter c h = ground arith

columns-Columns : {s : Bytes} {n : ℕ} → Columns s n → columns s ≡ n
unfolding columns
columns-Columns empty = refl
columns-Columns (letter {c = c} h t) = omega (arith, columns-letter c h, columns-Columns t)
columns-Columns (framed {f = f} {s = s} h t) =
    omega (arith, columns-append f s, columns-frame h, columns-Columns t)

dots-Columns : (n : ℕ) → (k : ℕ) × Columns (replicate n 46) k × (k ≤ n)
dots-Columns zero = (0, empty, omega arith)
dots-Columns (suc n) = let (k, c, h) = dots-Columns n in (k + 1, letter refl c, omega arith)

cut_columns-fits :
    (s : Bytes) (n limit : ℕ)
    → Columns s n
    → (k : ℕ) × Columns (cut_columns s limit) k × (k ≤ limit)
unfolding cut_columns
cut_columns-fits s n limit c =
    if_cases (λ t. (k : ℕ) × Columns t k × (k ≤ limit)) (leb (columns s) limit) s
      (replicate limit 46) (λ h. (n, c, omega (arith, leb→le _ _ h, columns-Columns c)))
      (λ h. dots-Columns limit)

abbrev plain : Ansi
plain = record {
  width = columns;
  truncate = λ s n tail. cut_columns s n;
  render = λ style s. s;
  place = λ w h s. s;
  join_horizontal = λ ss. join ss [];
  join_vertical = λ ss. join ss (codes "\n");
}

columns-Segments : {s : Bytes} {n : ℕ} → Segments plain s n → columns s ≡ n
unfolding columns
columns-Segments ended = refl
columns-Segments (styled {s = s} {t = t} style c d) =
    omega (arith, columns-append s t, columns-Columns c, columns-Segments d)

plain_laws : AnsiLaws plain
plain_laws = record {
  width_columns = λ s n c. columns-Columns c;
  width_segments = λ s n c. columns-Segments c;
  truncate_fits = cut_columns-fits;
}

abbrev vim : PaneRef
vim = record { host = codes "build"; id = codes "%12" }

card-layout_cards_example :
    (columns (
        card_top plain border title
          (codes "vim main.go")
          ((layout_cards (pos 100) (pos 24) (pos 9)).card_w - 2))
      ≡ (layout_cards (pos 100) (pos 24) (pos 9)).card_w)
    × (columns
          (card_bottom plain border none vim ((layout_cards (pos 100) (pos 24) (pos 9)).card_w - 2))
        ≡ (layout_cards (pos 100) (pos 24) (pos 9)).card_w)
    × (crop (pos 20) 24 ((layout_cards (pos 100) (pos 24) (pos 9)).card_h - 2) ≤ 20)
    × (20
        < crop (pos 20) 24 ((layout_cards (pos 100) (pos 24) (pos 9)).card_h - 2)
          + ((layout_cards (pos 100) (pos 24) (pos 9)).card_h - 2))
card-layout_cards_example =
    card-layout_cards plain plain_laws (pos 100) (pos 24) (pos 9) border title (codes "vim main.go")
      none vim 11 9 20 24 (printable-Columns (codes "vim main.go") refl)
      (printable-Columns (codes "build:%12") refl) (omega arith)

tests_crop : (crop (pos 20) 24 3 ≡ 18) × (crop (pos 0) 24 3 ≡ 0) × (crop (pos 1) 2 3 ≡ 0)
unfolding crop
tests_crop = (refl, refl, refl)

-- A terminal that shows in its first cell whether it was written to, in color, and which reports a
-- cursor that is shown for each `h` and hidden for each other byte.
record Glass : Type 0 where
  cols : ℤ
  rows : ℤ
  count : ℕ

reports : Bytes → List Bool
reports [] = []
reports (c ∷ cs) = (c == b'h') ∷ reports cs

reports-append : (a b : Bytes) → reports (a ++ b) ≡ reports a ++ reports b
unfolding reports
reports-append [] b = refl
reports-append (c ∷ a) b = ap (λ r. (c == b'h') ∷ r) (reports-append a b)

abbrev red_bold : Style
red_bold = record {
  fg = some (65535, 0, 0);
  bg = none;
  bold = true;
  faint = false;
  italic = false;
  blink = false;
  reverse = false;
  strikethrough = false;
  underline = 0;
}

glass_cell : Glass → ℕ → ℕ → Option VtCell
glass_cell t x y =
    if t.count == 0 || not (x == 0 && y == 0)
    then some blank_cell
    else some (record { content = codes "x"; width = pos 1; style = red_bold })

abbrev glass : Vt
glass = record {
  Screen = Glass;
  start = λ w h. record { cols = w; rows = h; count = 0 };
  set_scrollback = λ n t. t;
  write = λ bytes t. (record t { count = t.count + length bytes }, reports bytes);
  resize = λ w h t. record t { cols = w; rows = h };
  width = λ t. t.cols;
  height = λ t. t.rows;
  cell_at = glass_cell;
  position = λ t. (pos 0, pos 0);
}

glass_laws : VtLaws glass
unfolding glass_cell
glass_laws = record {
  start_w = λ w h pw ph. refl;
  start_h = λ w h pw ph. refl;
  start_cell = λ w h x y pw ph. inr refl;
  start_position = λ w h pw ph. refl;
  scrollback_w = λ n t. refl;
  scrollback_h = λ n t. refl;
  scrollback_cell = λ n t x y. refl;
  scrollback_position = λ n t. refl;
  write_w = λ bytes t. refl;
  write_h = λ bytes t. refl;
  write_split = λ a b t. λ i.
      (record { cols = t.cols; rows = t.rows; count = adds a b t.count i }, reports-append a b i);
  resize_w = λ w h t pw ph. refl;
  resize_h = λ w h t pw ph. refl;
}
  where
    adds : (a b : Bytes) (n : ℕ) → n + length (a ++ b) ≡ n + length a + length b
    adds a b n = omega (arith, length-append a b)

-- A screen that was written to, whose first cell is red.
abbrev written : VtEmulator glass
written = record { term = record { cols = pos 3; rows = pos 2; count = 5 }; cursor_hidden = false }

adapter-EmulatorLaws_example :
    EmulatorLaws (adapter glass)
    × Shows
        (glass_cell written.term 0 0)
        (at (take_snapshot glass written (new (pos 9) (pos 1))) (pos 0) (pos 0))
adapter-EmulatorLaws_example =
    adapter-EmulatorLaws glass written (new (pos 9) (pos 1)) 0 0 glass_laws
      (new-IsGrid (pos 9) (pos 1)) (omega arith) (omega arith)

tests_convert :
    (convert_color (some (65535, 0, 256)) ≡ 33488897)
    × (convert_attrs red_bold ≡ 1)
    × (convert_cell (some blank_cell) ≡ default_cell)
unfolding convert_color convert_attrs convert_cell
tests_convert = (refl, refl, refl)
