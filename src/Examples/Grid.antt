-- ===== src/Examples/Grid.antt =====
-- internal/grid and internal/wire at concrete inputs.
use shevet.Prelude.{◌≡◌, refl, true, some, List, [], ◌∷◌, arith, if◌then◌else◌, pos, clip}
use shevet.Grid.{
  snapshot, Cell, Cursor, CellPatch, Grid, default_cell, new, outside, at, put, apply_all, resize,
  diff,
}
use shevet.Grid.Bounds.{IsGrid, new-IsGrid, put-IsGrid}
use shevet.Grid.Patches.{apply_all-snapshot, apply_all-diff}
use shevet.Grid.Reshape.{at-resize}
use shevet.Wire.{damage_to_proto, damage_from_proto}
use shevet.Wire.RoundTrip.{FitsWire, damage_round_trip}

abbrev letter : Cell
letter = record { content = b'x' ∷ []; width = pos 1; fg = 0; bg = 16777216; attrs = 1 }

abbrev blank : Grid
blank = new (pos 3) (pos 2)

abbrev written : Grid
written = put blank (pos 2) (pos 1) letter

written-IsGrid : IsGrid written
written-IsGrid = put-IsGrid blank (pos 2) (pos 1) letter (new-IsGrid (pos 3) (pos 2))

apply_all-diff_example :
    (batch : List CellPatch) × (diff blank written ≡ some batch) × (apply_all blank batch ≡ written)
apply_all-diff_example =
    apply_all-diff blank written (new-IsGrid (pos 3) (pos 2)) written-IsGrid
      (unfold new put in refl) (unfold new put in refl)

apply_all-snapshot_example : apply_all (new (pos 3) (pos 2)) (snapshot written) ≡ written
unfolding put new
apply_all-snapshot_example = apply_all-snapshot written written-IsGrid

at-resize_example : at (resize written (pos 5) (pos 2)) (pos 2) (pos 1) ≡ (
    if outside (clip (pos 5)) (clip (pos 2)) (pos 2) (pos 1)
    then default_cell
    else at written (pos 2) (pos 1))
at-resize_example = at-resize written (pos 5) (pos 2) (pos 2) (pos 1) written-IsGrid

diff_of_one_cell : diff blank written ≡ some (record { x = pos 2; y = pos 1; cell = letter } ∷ [])
unfolding diff new put
diff_of_one_cell = refl

moved_rows : at (resize written (pos 5) (pos 4)) (pos 2) (pos 1) ≡ letter
unfolding at resize new put
moved_rows = refl

abbrev patch : CellPatch
patch = record { x = pos 2; y = pos 1; cell = letter }

abbrev home : Cursor
home = record { x = pos 4; y = pos 0; hidden = true }

patch_fits : FitsWire patch
patch_fits = record {
  column = (refl, omega arith);
  row = (refl, omega arith);
  width = (refl, omega arith);
  fg = omega arith;
  bg = omega arith;
  attrs = omega arith;
}

damage_round_trip_example :
    damage_from_proto (damage_to_proto (patch ∷ []) home) ≡ (patch ∷ [], home)
damage_round_trip_example =
    damage_round_trip (patch ∷ []) home (patch_fits, tt) ((refl, omega arith), (refl, omega arith))
