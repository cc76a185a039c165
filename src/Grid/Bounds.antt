-- ===== src/Grid/Bounds.antt =====
-- Grids that hold a cell for each of their positions: what keeps them so, and what a write changes.
use shevet.Prelude.{
  ℕ, suc, zero, ◌+◌, ◌*◌, ◌<◌, min, ◌≡◌, refl, sym, ap, ◌∙◌, inl, inr, Bool, true, false, ◌&&◌,
  List, [], ◌∷◌, arith, if◌then◌else◌, Bool-cases, length, get_or, set, replicate, length-set,
  length-replicate, get_or-set_self, get_or-set_ne, ℤ, pos, pos_part, eqb_ℤ, clip, dec_lt,
}
use mathlib.Core.Bool.{false≢true}
use shevet.Grid.{
  Cell, Grid, CellPatch, default_cell, new, outside, index, at, put, apply, apply_all, overwrite,
  copy_rows, resize,
}

-- There is a cell for every position.
abbrev pub IsGrid : Grid → Type 0
IsGrid g = length g.cells ≡ g.w * g.h

pub new-IsGrid : (w h : ℤ) → IsGrid (new w h)
unfolding new
new-IsGrid w h = length-replicate (clip w * clip h) default_cell

pub put-IsGrid : (g : Grid) (x y : ℤ) (c : Cell) → IsGrid g → IsGrid (put g x y c)
unfolding put
put-IsGrid g x y c h = ground (arith, length-set g.cells (index g.w x y) c)

pub apply_all-IsGrid : (g : Grid) (ps : List CellPatch) → IsGrid g → IsGrid (apply_all g ps)
unfolding apply_all
apply_all-IsGrid g [] h = h
apply_all-IsGrid g (p ∷ ps) h = apply_all-IsGrid (apply g p) ps (put-IsGrid g p.x p.y p.cell h)

pub length-overwrite :
    (dst : List Cell) (off : ℕ) (src : List Cell) → length (overwrite dst off src) ≡ length dst
unfolding overwrite
length-overwrite [] off src = refl
length-overwrite (d ∷ dst) (suc off) src = ap suc (length-overwrite dst off src)
length-overwrite (d ∷ dst) zero [] = refl
length-overwrite (d ∷ dst) zero (s ∷ src) = ap suc (length-overwrite dst zero src)

pub length-copy_rows :
    (g : Grid) (w n y : ℕ) (cells : List Cell) → length (copy_rows g w n y cells) ≡ length cells
unfolding copy_rows
length-copy_rows g w zero y cells = refl
length-copy_rows g w (suc n) y cells =
    length-copy_rows g w n (y + 1) _ ∙ length-overwrite cells (y * w) _

pub resize-IsGrid : (g : Grid) (w h : ℤ) → IsGrid g → IsGrid (resize g w h)
unfolding resize
resize-IsGrid g w h v = ground (
  arith,
  length-copy_rows g (clip w) (min (clip h) g.h) 0 (replicate (clip w * clip h) default_cell),
  length-replicate (clip w * clip h) default_cell,
)

-- A place in the slice belongs to one position.
pub row_before : (w x y y' : ℕ) → x < w → y < y' → y * w + x < y' * w
row_before w x y y' hx hy = grind arith

index_inj : (w x y x' y' : ℕ) → x < w → x' < w → y * w + x ≡ y' * w + x' → (x ≡ x') × (y ≡ y')
index_inj w x y x' y' hx hx' e = elim (dec_lt y y') [
  | yes less ↦ absurd (omega (arith, row_before w x y y' hx less))
  | no ge ↦ elim (dec_lt y' y) [
    | yes more ↦ absurd (omega (arith, row_before w x' y' y hx' more))
    | no le ↦ let same : y ≡ y' = omega arith in (omega (arith, ap (λ (t : ℕ). t * w) same), same)
  ]
]

pub index_bound : (w h x y : ℕ) → x < w → y < h → y * w + x < w * h
index_bound w h x y hx hy = grind arith

pub inside_parts :
    (w h : ℕ) (x y : ℤ)
    → outside w h x y ≡ false
    → (x ≡ pos (pos_part x)) × (y ≡ pos (pos_part y)) × (pos_part x < w) × (pos_part y < h)
unfolding outside
inside_parts w h x y i = ground arith

abbrev pub same_place : ℤ → ℤ → ℤ → ℤ → Bool
same_place x y x' y' = eqb_ℤ x x' && eqb_ℤ y y'

pub at_inside :
    (g : Grid) (x y : ℤ)
    → outside g.w g.h x y ≡ false
    → at g x y ≡ get_or g.cells (index g.w x y) default_cell
unfolding at
at_inside g x y h = rw h

pub at-outside : (g : Grid) (x y : ℤ) → outside g.w g.h x y ≡ true → at g x y ≡ default_cell
unfolding at
at-outside g x y h = rw h

put_inside :
    (g : Grid) (x y : ℤ) (c : Cell)
    → outside g.w g.h x y ≡ false
    → put g x y c ≡ record g { cells = set g.cells (index g.w x y) c }
unfolding put
put_inside g x y c h = rw h

pub put-outside : (g : Grid) (x y : ℤ) (c : Cell) → outside g.w g.h x y ≡ true → put g x y c ≡ g
unfolding put
put-outside g x y c h = rw h

index-lt :
    (g : Grid) (x y : ℤ) → IsGrid g → outside g.w g.h x y ≡ false → index g.w x y < length g.cells
unfolding index
index-lt g x y v h =
    let (_, _, hx, hy) = inside_parts g.w g.h x y h in
    omega (arith, index_bound g.w g.h (pos_part x) (pos_part y) hx hy)

place_differs :
    (w h : ℕ) (x y x' y' : ℤ)
    → outside w h x y ≡ false
    → outside w h x' y' ≡ true
    → same_place x y x' y' ≡ false
unfolding outside
place_differs w h x y x' y' i o = ground arith

index_same : (w : ℕ) (x y x' y' : ℤ) → same_place x y x' y' ≡ true → index w x' y' ≡ index w x y
index_same w x y x' y' h =
    let ex : x' ≡ x = ground arith in let ey : y' ≡ y = ground arith in rw (ex, ey)

place_of_index :
    (w h : ℕ) (x y x' y' : ℤ)
    → outside w h x y ≡ false
    → outside w h x' y' ≡ false
    → index w x y ≡ index w x' y'
    → same_place x y x' y' ≡ true
unfolding index
place_of_index w h x y x' y' i i' e =
    let (ax, ay, bx, by) = inside_parts w h x y i in
    let (cx, cy, dx, dy) = inside_parts w h x' y' i' in
    let (px, py) = index_inj w (pos_part x) (pos_part y) (pos_part x') (pos_part y') bx dx e in
    ground arith

-- Writing inside the grid: that position reads as the new cell, every other as before.
pub at-put :
    (g : Grid) (x y x' y' : ℤ) (c : Cell)
    → IsGrid g
    → outside g.w g.h x y ≡ false
    → at (put g x y c) x' y' ≡ (if same_place x y x' y' then c else at g x' y')
unfolding at put
at-put g x y x' y' c v h = elim (Bool-cases (outside g.w g.h x' y')) [
  | inl out ↦ rw (h, out, place_differs g.w g.h x y x' y' h out)
  | inr here ↦ elim (Bool-cases (same_place x y x' y')) [
    | inl same ↦
        rw (h, here, same, index_same g.w x y x' y' same)
          (get_or-set_self g.cells (index g.w x y) c default_cell (index-lt g x y v h))
    | inr other ↦
        rw (h, here, other)
          (get_or-set_ne g.cells (index g.w x y) (index g.w x' y') c default_cell
            λ e. absurd (false≢true (sym other ∙ place_of_index g.w g.h x y x' y' h here e)))
  ]
]
