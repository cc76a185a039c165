-- ===== src/Examples/Tui.antt =====
-- internal/tui at concrete inputs.
use shevet.Prelude.{max, ◌≡◌, refl, false, some, List, replicate, pos, ◌+ℤ◌, ◌-ℤ◌, clip, codes}
use shevet.Grid.{Grid, Cursor, new, put, at, default_cell}
use shevet.Tui.Render.{Piece, render_pieces, render_region, text_of}
use shevet.Tui.Render.Columns.{widths, render_region-ends}
use shevet.Tui.Layout.{layout_cards, row_offset, lay_out}
use shevet.Tui.Layout.Fits.{FitsIn, layout_cards-FitsIn}

layout_cards-FitsIn_example :
    FitsIn
      (max (clip (pos 100 -ℤ pos 4)) 1)
      (max (clip (pos 30 -ℤ pos 3)) 5)
      (max (clip (pos 7)) 1)
      (layout_cards (pos 100) (pos 30) (pos 7))
layout_cards-FitsIn_example = layout_cards-FitsIn (pos 100) (pos 30) (pos 7)

scrolls : row_offset (layout_cards (pos 100) (pos 12) (pos 7)) 5 ≡ 2
unfolding row_offset layout_cards lay_out ◌-ℤ◌
scrolls = refl

-- A grid of two columns with a wide grapheme in the second, drawn in a region of three columns.
abbrev wide : Grid
wide =
    put (new (pos 2) (pos 1)) (pos 1) (pos 0)
      (record default_cell { content = codes "W"; width = pos 2 })

abbrev at_origin : Cursor
at_origin = record { x = pos 0; y = pos 0; hidden = false }

render_region-ends_example :
    (ps : List Piece) × (render_pieces wide at_origin (pos 0) (pos 0) (pos 2) (pos 2) ≡ some ps)
    × (render_region wide at_origin (pos 0) (pos 0) (pos 2) (pos 2) ≡ some (text_of ps))
    × (widths 0 ps ≡ replicate 2 2)
render_region-ends_example = render_region-ends wide at_origin (pos 0) (pos 0) (pos 2) 1

-- The cursor is reversed, and the grapheme that does not fit is blanked.
test_render :
    render_region wide at_origin (pos 0) (pos 0) (pos 2) (pos 1)
    ≡ some (codes "\u{1b}[0;7m \u{1b}[0m \u{1b}[0m")
unfolding render_region put new at ◌+ℤ◌
test_render = refl
