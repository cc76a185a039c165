-- ===== src/Grid/Patches.antt =====
-- What the patches of `Diff` and `Snapshot` do to a grid.
use mathlib.Core.Path.{subst, ap₂}
use shevet.Prelude.{
  ℕ, suc, zero, ◌+◌, ◌*◌, ◌/◌, ◌<◌, ◌≡◌, refl, sym, ap, ◌∙◌, inl, inr, true, some, List, [], ◌∷◌,
  ◌++◌, append_assoc, arith, ==_refl, Bool-cases, length, set, replicate, length-append,
  length-replicate, pos, bytes_eq→≡, bytes_eq_refl,
}
use native.Mathlib.Nat.{div-lt_iff_lt-mul, mul_comm, div-add-mod', mod-lt, zero-mul}
use shevet.Grid.{
  Cell, Grid, CellPatch, default_cell, cell_eq, is_default, new, outside, index, put, apply,
  apply_all, patch_at, snapshot_from, snapshot, diff_from, diff,
}
use shevet.Grid.Bounds.{IsGrid}

pub cell_eq→≡ : (a b : Cell) → cell_eq a b ≡ true → a ≡ b
unfolding cell_eq
cell_eq→≡ a b h = ground (arith, bytes_eq→≡ a.content b.content)

pub cell_eq_refl : (a : Cell) → cell_eq a a ≡ true
unfolding cell_eq
cell_eq_refl a = ground (arith, bytes_eq_refl a.content)

pub cell_eq_sym : (a b : Cell) → cell_eq a b ≡ cell_eq b a
cell_eq_sym a b = elim (Bool-cases (cell_eq a b)) [
  | inl e ↦ rw (cell_eq→≡ a b e)
  | inr n ↦ elim (Bool-cases (cell_eq b a)) [ inl e ↦ rw (cell_eq→≡ b a e) | inr m ↦ rw (n, m) ]
]

abbrev grid_of : ℕ → ℕ → List Cell → Grid
grid_of w h cells = record { w = w; h = h; cells = cells }

pub width_pos : (w h i : ℕ) → i < w * h → 0 < w
width_pos zero h i lt = absurd (omega (arith, zero-mul h))
width_pos (suc w) h i lt = omega arith

-- The patch of a place of the slice writes that place.
apply-patch_at :
    (w h i : ℕ) (cells : List Cell) (c : Cell)
    → i < w * h
    → apply (grid_of w h cells) (patch_at w i c) ≡ grid_of w h (set cells i c)
unfolding apply put patch_at outside index
apply-patch_at w h i cells c lt =
    let row : i / w < h =
      (div-lt_iff_lt-mul (width_pos w h i lt)).1 (omega (arith, mul_comm w h)) in
    let col = mod-lt i (width_pos w h i lt) in ground (arith, row, col, div-add-mod' i w)

set_middle :
    (xs : List Cell) (y : Cell) (ys : List Cell) (v : Cell)
    → set (xs ++ y ∷ ys) (length xs) v ≡ xs ++ v ∷ ys
set_middle [] y ys v = refl
set_middle (x ∷ xs) y ys v = ap (λ t. x ∷ t) (set_middle xs y ys v)

module _ (w h : ℕ) where
  apply_step :
      (done : List Cell) (p n : Cell) (ps : List Cell) (i : ℕ)
      → length done ≡ i
      → i < w * h
      → apply (grid_of w h (done ++ p ∷ ps)) (patch_at w i n) ≡ grid_of w h ((done ++ n ∷ []) ++ ps)
  apply_step done p n ps i e lt =
      rw (apply-patch_at w h i (done ++ p ∷ ps) n lt, ← e, set_middle done p ps n, append_assoc)

  -- The batch that `Diff` makes of the rest turns the one rest into the other.
  diff_from-apply_all :
      (done ps ns : List Cell) (i : ℕ)
      → length done ≡ i
      → length ps ≡ length ns
      → i + length ns ≡ w * h
      → (batch : List CellPatch) × (diff_from w i ps ns ≡ some batch)
        × (apply_all (grid_of w h (done ++ ps)) batch ≡ grid_of w h (done ++ ns))
  unfolding diff_from apply_all
  diff_from-apply_all done [] [] i e f g = ([], refl, refl)
  diff_from-apply_all done [] (n ∷ ns) i e f g = absurd (omega arith)
  diff_from-apply_all done (p ∷ ps) [] i e f g = absurd (omega arith)
  diff_from-apply_all done (p ∷ ps) (n ∷ ns) i e f g =
      let (batch, found, turned) =
        diff_from-apply_all (done ++ n ∷ []) ps ns (i + 1)
          (omega (arith, length-append done (n ∷ []))) (omega arith) (omega arith) in
      elim (Bool-cases (cell_eq n p)) [
        | inl same ↦ (
          batch,
          rw (found, same),
          rw
              (
                ← cell_eq→≡ n p same,
                ← append_assoc done (n ∷ []) ps,
                ← append_assoc done (n ∷ []) ns,
              )
              turned,
        )
        | inr changed ↦ (
          patch_at w i n ∷ batch,
          rw (found, changed),
          rw (apply_step done p n ps i e (omega arith), ← append_assoc done (n ∷ []) ns) turned,
        )
      ]

diff_cells :
    (w h : ℕ) (ps ns : List Cell)
    → length ps ≡ w * h
    → length ns ≡ w * h
    → (batch : List CellPatch) × (diff (grid_of w h ps) (grid_of w h ns) ≡ some batch)
      × (apply_all (grid_of w h ps) batch ≡ grid_of w h ns)
unfolding diff
diff_cells w h ps ns v u =
    let (batch, found, turned) =
      diff_from-apply_all w h [] ps ns 0 refl (omega arith) (omega arith) in
    (batch, rw (==_refl w, ==_refl h) found, turned)

-- On two grids of one size `Diff` does not panic, and its patches applied to the first give the second.
pub apply_all-diff :
    (prev next : Grid)
    → IsGrid prev
    → IsGrid next
    → prev.w ≡ next.w
    → prev.h ≡ next.h
    → (batch : List CellPatch) × (diff prev next ≡ some batch) × (apply_all prev batch ≡ next)
apply_all-diff prev next v u ew eh =
    subst
      (λ (g : Grid).
        (batch : List CellPatch) × (diff g next ≡ some batch) × (apply_all g batch ≡ next))
      (λ i. record { w = sym ew i; h = sym eh i; cells = prev.cells })
      (diff_cells next.w next.h prev.cells next.cells (v ∙ ap₂ (λ (a b : ℕ). a * b) ew eh) u)

-- `Snapshot` is the difference from a grid of default cells.
snapshot_from-diff_from :
    (w i : ℕ) (cs : List Cell)
    → diff_from w i (replicate (length cs) default_cell) cs ≡ some (snapshot_from w i cs)
unfolding diff_from snapshot_from is_default
snapshot_from-diff_from w i [] = refl
snapshot_from-diff_from w i (c ∷ cs) =
    rw (snapshot_from-diff_from w (i + 1) cs)
      (elim (Bool-cases (cell_eq c default_cell)) [ inl e ↦ rw e | inr n ↦ rw n ])

snapshot_from_unique :
    (w n : ℕ) (cs : List Cell) (batch : List CellPatch)
    → length cs ≡ n
    → diff_from w 0 (replicate n default_cell) cs ≡ some batch
    → batch ≡ snapshot_from w 0 cs
snapshot_from_unique w n cs batch e found =
    let same : some batch ≡ some (snapshot_from w 0 cs) =
      sym found
      ∙ ap (λ (k : ℕ). diff_from w 0 (replicate k default_cell) cs) (sym e)
      ∙ snapshot_from-diff_from w 0 cs in
    cc

-- The patches of `Snapshot`, applied to a new grid of the same size, give the grid.
pub apply_all-snapshot :
    (g : Grid) → IsGrid g → apply_all (new (pos g.w) (pos g.h)) (snapshot g) ≡ g
unfolding snapshot new
apply_all-snapshot g v =
    let (batch, found, turned) =
      diff_from-apply_all g.w g.h [] (replicate (g.w * g.h) default_cell) g.cells 0 refl
        (length-replicate (g.w * g.h) default_cell ∙ sym v) (omega arith) in
    ap (apply_all (new (pos g.w) (pos g.h)))
      (sym (snapshot_from_unique g.w (g.w * g.h) g.cells batch v found))
    ∙ turned

-- No patch stands for a pair of equal grids.
diff_from_self : (w i : ℕ) (cs : List Cell) → diff_from w i cs cs ≡ some []
unfolding diff_from
diff_from_self w i [] = refl
diff_from_self w i (c ∷ cs) = rw (diff_from_self w (i + 1) cs, cell_eq_refl c)

pub diff_self : (g : Grid) → diff g g ≡ some []
unfolding diff
diff_self g = rw (==_refl g.w, ==_refl g.h) (diff_from_self g.w 0 g.cells)
