-- ===== src/Grid.antt =====
-- internal/grid/grid.go: cells, colors, grids and their patches. Positions and sizes are Go's int as
-- ℤ; the sizes that a grid keeps are never negative, since `New` and `Resize` clip them.
pub mod Bounds
pub mod Patches
pub mod Reshape
-- `Cell`
use shevet.Prelude.{
  ℕ, suc, zero, ◌+◌, ◌*◌, ◌/◌, ◌%◌, min, Bool, not, ◌&&◌, ◌||◌, Option, none, some, List, [], ◌∷◌,
  ◌==◌, if◌then◌else◌, get_or, set, take, drop, replicate, ℤ, pos, pos_part, ltb_ℤ, eqb_ℤ, clip,
  Bytes, bytes_eq,
}

pub record Cell : Type 0 where
  pub content : Bytes
  pub width : ℤ
  pub fg : ℕ
  pub bg : ℕ
  pub attrs : ℕ

-- The zero `Cell{}`.
abbrev pub default_cell : Cell
default_cell = record { content = []; width = pos 0; fg = 0; bg = 0; attrs = 0 }

-- Go's `==` on cells.
unfoldable pub cell_eq : Cell → Cell → Bool
unfolding bytes_eq
cell_eq a b =
    bytes_eq a.content b.content
    && (eqb_ℤ a.width b.width && (a.fg == b.fg && (a.bg == b.bg && a.attrs == b.attrs)))

-- `Cell.IsDefault`
unfoldable pub is_default : Cell → Bool
unfolding cell_eq
is_default c = cell_eq c default_cell

-- `Cursor`
pub record Cursor : Type 0 where
  pub x : ℤ
  pub y : ℤ
  pub hidden : Bool

unfoldable pub cursor_eq : Cursor → Cursor → Bool
cursor_eq a b = eqb_ℤ a.x b.x && (eqb_ℤ a.y b.y && (if a.hidden then b.hidden else not b.hidden))

-- `Size`
pub record Size : Type 0 where
  pub w : ℤ
  pub h : ℤ

-- `CellPatch`
pub record CellPatch : Type 0 where
  pub x : ℤ
  pub y : ℤ
  pub cell : Cell

-- `Grid`
pub record Grid : Type 0 where
  pub w : ℕ
  pub h : ℕ
  pub cells : List Cell

-- `New`
unfoldable pub new : ℤ → ℤ → Grid
new w h = record { w = clip w; h = clip h; cells = replicate (clip w * clip h) default_cell }

-- The guard of `At` and `Set`.
unfoldable pub outside : ℕ → ℕ → ℤ → ℤ → Bool
outside w h x y =
    ltb_ℤ x (pos 0) || (ltb_ℤ y (pos 0) || (not (ltb_ℤ x (pos w)) || not (ltb_ℤ y (pos h))))

-- The place of a position in the slice of cells.
unfoldable pub index : ℕ → ℤ → ℤ → ℕ
index w x y = pos_part y * w + pos_part x

-- `At`
unfoldable pub at : Grid → ℤ → ℤ → Cell
unfolding outside index
at g x y = if outside g.w g.h x y then default_cell else get_or g.cells (index g.w x y) default_cell

-- `Set`, as `put`.
unfoldable pub put : Grid → ℤ → ℤ → Cell → Grid
unfolding outside index
put g x y c = if outside g.w g.h x y then g else record g { cells = set g.cells (index g.w x y) c }

-- `Apply`
unfoldable pub apply : Grid → CellPatch → Grid
unfolding put
apply g p = put g p.x p.y p.cell

-- A batch of patches, one after the other.
unfoldable pub apply_all : Grid → List CellPatch → Grid
unfolding apply
apply_all g [] = g
apply_all g (p ∷ ps) = apply_all (apply g p) ps

-- Go's `copy` into a slice from an offset on; what does not fit is left out.
unfoldable pub overwrite : List Cell → ℕ → List Cell → List Cell
overwrite [] off src = []
overwrite (d ∷ dst) (suc off) src = d ∷ overwrite dst off src
overwrite (d ∷ dst) zero [] = d ∷ dst
overwrite (d ∷ dst) zero (s ∷ src) = s ∷ overwrite dst zero src

-- The loop of `Resize`: `n` more rows from row `y` on.
unfoldable pub copy_rows : Grid → ℕ → ℕ → ℕ → List Cell → List Cell
unfolding overwrite
copy_rows g w zero y cells = cells
copy_rows g w (suc n) y cells =
    copy_rows g w n (y + 1) (overwrite cells (y * w) (take (min w g.w) (drop (y * g.w) g.cells)))

-- `Resize`
unfoldable pub resize : Grid → ℤ → ℤ → Grid
unfolding copy_rows
resize g w h = if clip w == g.w && clip h == g.h then g else record {
  w = clip w;
  h = clip h;
  cells = copy_rows g (clip w) (min (clip h) g.h) 0 (replicate (clip w * clip h) default_cell);
}

-- The patch of the cell at a place in the slice.
unfoldable pub patch_at : ℕ → ℕ → Cell → CellPatch
patch_at w i c = record { x = pos (i % w); y = pos (i / w); cell = c }

-- The loop of `Snapshot` from place `i` on.
unfoldable pub snapshot_from : ℕ → ℕ → List Cell → List CellPatch
unfolding patch_at is_default
snapshot_from w i [] = []
snapshot_from w i (c ∷ cs) =
    let rest = snapshot_from w (i + 1) cs in if is_default c then rest else patch_at w i c ∷ rest

-- `Snapshot`
unfoldable pub snapshot : Grid → List CellPatch
unfolding snapshot_from
snapshot g = snapshot_from g.w 0 g.cells

abbrev pub cons_if : Bool → CellPatch → Option (List CellPatch) → Option (List CellPatch)
cons_if b p none = none
cons_if b p (some ps) = some (if b then p ∷ ps else ps)

-- The loop of `Diff` from place `i` on; `none` is an index out of range.
unfoldable pub diff_from : ℕ → ℕ → List Cell → List Cell → Option (List CellPatch)
unfolding patch_at cell_eq
diff_from w i ps [] = some []
diff_from w i [] (n ∷ ns) = none
diff_from w i (p ∷ ps) (n ∷ ns) =
    cons_if (not (cell_eq n p)) (patch_at w i n) (diff_from w (i + 1) ps ns)

-- `Diff`; `none` is its panic.
unfoldable pub diff : Grid → Grid → Option (List CellPatch)
unfolding diff_from
diff prev next =
    if not (prev.w == next.w) || not (prev.h == next.h)
    then none
    else diff_from next.w 0 prev.cells next.cells
