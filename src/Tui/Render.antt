-- ===== src/Tui/Render.antt =====
-- internal/tui/render.go and the colors of internal/grid/grid.go: a region of a grid as terminal text.
-- The builder is the list of what is written to it, so that what a write shows is told apart from
-- its bytes.
pub mod Columns
use shevet.Prelude.{
  ℕ, suc, zero, ◌+◌, ◌-◌, ◌*◌, ◌/◌, ◌%◌, ◌^◌, max, Bool, not, ◌&&◌, Option, none, some, List, [],
  ◌∷◌, ◌++◌, ltb, ◌==◌, if◌then◌else◌, ℤ, pos, ◌+ℤ◌, eqb_ℤ, clip, Bytes, codes, bytes_eq,
}
use shevet.Prelude.Decimal.{decimal}
use shevet.Grid.{Cell, default_cell, Cursor, Grid, at}

-- `RGB`, and `Color.RGB` with its flag.
unfoldable pub rgb : ℕ → ℕ → ℕ → ℕ
rgb r g b = 2 ^ 24 + (r * 65536 + (g * 256 + b))

unfoldable pub components : ℕ → Option (ℕ × ℕ × ℕ)
components c = if c == 0 then none else some (c / 65536 % 256, c / 256 % 256, c % 256)

-- The attributes, by their bits; the last argument counts them down.
abbrev has_bit : ℕ → ℕ → Bool
has_bit attrs k = attrs / 2 ^ k % 2 == 1

-- `c.Attrs ^= grid.AttrReverse`
unfoldable pub flip_reverse : ℕ → ℕ
flip_reverse attrs = if has_bit attrs 5 then attrs - 32 else attrs + 32

-- `sgrAttrs`: the bit of an attribute with its parameter.
abbrev sgr_attrs : List (ℕ × Bytes)
sgr_attrs =
    (0, codes "1")
    ∷ (1, codes "2")
    ∷ (2, codes "3")
    ∷ (3, codes "4")
    ∷ (4, codes "5")
    ∷ (5, codes "7")
    ∷ (6, codes "9")
    ∷ []

unfoldable pub attr_codes : ℕ → List (ℕ × Bytes) → Bytes
attr_codes attrs [] = []
attr_codes attrs ((k, code) ∷ ms) =
    let rest = attr_codes attrs ms in if has_bit attrs k then b';' ∷ (code ++ rest) else rest

-- A color behind its prefix, with `writeRGB`.
color_codes : Bytes → Option (ℕ × ℕ × ℕ) → Bytes
unfolding decimal
color_codes prefix none = []
color_codes prefix (some (r, g, b)) =
    prefix ++ (decimal r ++ b';' ∷ (decimal g ++ b';' ∷ decimal b))

-- `writeSGR`
unfoldable pub sgr : Cell → Bytes
unfolding attr_codes color_codes components
sgr c =
    codes "\u{1b}[0"
    ++ (attr_codes c.attrs sgr_attrs
        ++ (color_codes (codes ";38;2;") (components c.fg)
            ++ (color_codes (codes ";48;2;") (components c.bg) ++ codes "m")))

-- `sameStyle`
unfoldable pub same_style : Cell → Cell → Bool
same_style a b = a.fg == b.fg && (a.bg == b.bg && a.attrs == b.attrs)

-- What is written: codes that show nothing, a blank, a grapheme of some columns, or a line break.
pub data Piece : Type 0 where
  style : Bytes → Piece
  blank : Piece
  grapheme : (content : Bytes) → (span : ℕ) → Piece
  line_break : Piece

abbrev pub span : Cell → ℕ
span c = max (clip c.width) 1

-- The cell at a position, with the cursor shown.
unfoldable pub shown : Grid → Cursor → ℤ → ℤ → Cell
unfolding at flip_reverse
shown g cursor x y =
    let c = at g x y in
    if not cursor.hidden && (eqb_ℤ x cursor.x && eqb_ℤ y cursor.y)
    then record c { attrs = flip_reverse c.attrs }
    else c

-- A grapheme that would cross the right edge is blanked.
unfoldable pub clipped : ℕ → ℕ → Cell → Cell
unfolding bytes_eq
clipped w rx c =
    if not (bytes_eq c.content []) && ltb w (rx + span c) then record c { content = [] } else c

-- The codes of a cell, if its style is not that of the last one.
unfoldable pub restyled : Cell → Cell → List Piece
unfolding same_style sgr
restyled last c = if same_style c last then [] else style (sgr c) ∷ []

pub prepend : List Piece → Option (List Piece) → Option (List Piece)
prepend ps none = none
prepend ps (some qs) = some (ps ++ qs)

-- What the cell writes, and how many columns the loop goes on by.
pub drawn : Bytes → ℕ → Piece × ℕ
drawn [] n = (blank, 1)
drawn (b ∷ content) n = (grapheme (b ∷ content) n, n)

-- The line break behind a row, but for the last.
pub break_behind : ℕ → List Piece
break_behind zero = []
break_behind (suc n) = line_break ∷ []

-- The loop over the columns of a row, with fuel for its rounds; `none` is that it ran out.
module _ (g : Grid) (cursor : Cursor) (x0 : ℤ) (w : ℕ) where
  -- The cell that a round draws.
  unfoldable pub cell_at : ℤ → ℕ → Cell
  unfolding shown clipped
  cell_at y rx = clipped w rx (shown g cursor (x0 +ℤ pos rx) y)

  unfoldable pub row_from : ℕ → ℤ → ℕ → Cell → Option (List Piece)
  unfolding cell_at restyled prepend drawn
  row_from zero y rx last = if ltb rx w then none else some []
  row_from (suc fuel) y rx last =
      let c = cell_at y rx in
      let (piece, n) = drawn c.content (span c) in
      let rest = row_from fuel y (rx + n) c in
      if ltb rx w then prepend (restyled last c ++ piece ∷ []) rest else some []

  -- The loop over the rows, with as many to go: each ends with a reset, and all but the last with a
  -- line break. A row has fuel for each of its columns.
  unfoldable pub rows_from : ℕ → ℤ → Option (List Piece)
  unfolding row_from break_behind
  rows_from zero y = some []
  rows_from (suc n) y =
      let rest = rows_from n (y +ℤ pos 1) in
      elim (row_from w y 0 default_cell) [
        | none ↦ none
        | some row ↦ prepend (row ++ style (codes "\u{1b}[0m") ∷ break_behind n) rest
      ]

-- `renderRegion`: the pieces, and the bytes that they are.
unfoldable pub render_pieces : Grid → Cursor → ℤ → ℤ → ℤ → ℤ → Option (List Piece)
unfolding rows_from
render_pieces g cursor x0 y0 w h = rows_from g cursor x0 (clip w) (clip h) y0

unfoldable pub text_of : List Piece → Bytes
text_of [] = []
text_of (style s ∷ ps) = s ++ text_of ps
text_of (blank ∷ ps) = b' ' ∷ text_of ps
text_of (grapheme s n ∷ ps) = s ++ text_of ps
text_of (line_break ∷ ps) = b'\n' ∷ text_of ps

unfoldable pub render_region : Grid → Cursor → ℤ → ℤ → ℤ → ℤ → Option Bytes
unfolding render_pieces text_of
render_region g cursor x0 y0 w h = elim (render_pieces g cursor x0 y0 w h) [
  | none ↦ none
  | some ps ↦ some (text_of ps)
]
