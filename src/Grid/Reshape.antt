-- ===== src/Grid/Reshape.antt =====
-- `Resize` keeps what both sizes have, and shows default cells elsewhere.
use shevet.Prelude.{
  ℕ, suc, zero, ◌+◌, ◌-◌, ◌*◌, ◌≤◌, ◌<◌, min, ◌≡◌, refl, ap, ◌∙◌, inl, inr, true, false, ◌&&◌, List,
  [], ◌∷◌, arith, ltb, leb, ◌==◌, if◌then◌else◌, lt→ltb, Bool-cases, length, get_or, take, drop,
  replicate, length-replicate, length-take, length-drop, get_or-replicate, ℤ, pos_part, clip,
  dec_lt,
}
use shevet.Grid.{Cell, Grid, default_cell, outside, index, at, overwrite, copy_rows, resize}
use shevet.Grid.Bounds.{
  IsGrid, row_before, index_bound, inside_parts, at_inside, at-outside, length-overwrite,
}

pub get_or-overwrite :
    (dst src : List Cell) (off i : ℕ) (d : Cell)
    → get_or (overwrite dst off src) i d ≡ (
        if (leb off i && ltb i (off + length src)) && ltb i (length dst)
        then get_or src (i - off) d
        else get_or dst i d)
unfolding overwrite
get_or-overwrite [] src off i d = ground arith
get_or-overwrite (x ∷ dst) src (suc off) zero d = ground arith
get_or-overwrite (x ∷ dst) src (suc off) (suc i) d =
    ground (arith, get_or-overwrite dst src off i d)
get_or-overwrite (x ∷ dst) [] zero i d = ground arith
get_or-overwrite (x ∷ dst) (s ∷ src) zero zero d = ground arith
get_or-overwrite (x ∷ dst) (s ∷ src) zero (suc i) d =
    ground (arith, get_or-overwrite dst src zero i d)

get_or-take : (n i : ℕ) (xs : List Cell) (d : Cell) → i < n → get_or (take n xs) i d ≡ get_or xs i d
get_or-take zero i xs d h = absurd (omega arith)
get_or-take (suc n) i [] d h = refl
get_or-take (suc n) zero (x ∷ xs) d h = refl
get_or-take (suc n) (suc i) (x ∷ xs) d h = get_or-take n i xs d (omega arith)

get_or-drop : (n i : ℕ) (xs : List Cell) (d : Cell) → get_or (drop n xs) i d ≡ get_or xs (n + i) d
get_or-drop zero i xs d = ground arith
get_or-drop (suc n) i [] d = ground arith
get_or-drop (suc n) i (x ∷ xs) d = ground (arith, get_or-drop n i xs d)

-- A row's place is in the stretch that a row's copy writes exactly when the rows are one.
row_after : (w x y y0 m : ℕ) → m ≤ w → y0 < y → y0 * w + m ≤ y * w + x
row_after w x y y0 m hm hy = grind arith

row_hit :
    (w m x y y0 : ℕ)
    → x < w
    → m ≤ w
    → (leb (y0 * w) (y * w + x) && ltb (y * w + x) (y0 * w + m)) ≡ (y == y0 && ltb x m)
row_hit w m x y y0 hx hm = elim (dec_lt y y0) [
  | yes less ↦ ground (arith, row_before w x y y0 hx less)
  | no ge ↦ elim (dec_lt y0 y) [
    | yes more ↦ ground (arith, row_after w x y y0 m hm more)
    | no le ↦ let same : y ≡ y0 = omega arith in ground (arith, ap (λ (t : ℕ). t * w) same)
  ]
]

length-row :
    (g : Grid) (m y : ℕ)
    → IsGrid g
    → m ≤ g.w
    → y < g.h
    → length (take m (drop (y * g.w) g.cells)) ≡ m
length-row g m y v hm hy =
    let room : y * g.w + g.w ≤ g.w * g.h = grind arith in
    omega (arith, length-take m (drop (y * g.w) g.cells), length-drop (y * g.w) g.cells)

module _ (g : Grid) (w h : ℕ) (v : IsGrid g) where
  abbrev old : ℕ → ℕ → Cell
  old x y = get_or g.cells (y * g.w + x) default_cell

  abbrev here : List Cell → ℕ → ℕ → Cell
  here cells x y = get_or cells (y * w + x) default_cell

  abbrev row : ℕ → List Cell
  row y = take (min w g.w) (drop (y * g.w) g.cells)

  -- One round of the copy changes one row, as far as both widths go.
  copied_row :
      (cells : List Cell) (x y y0 : ℕ)
      → length cells ≡ w * h
      → x < w
      → y < h
      → y0 < g.h
      → here (overwrite cells (y0 * w) (row y0)) x y
        ≡ (if y == y0 && ltb x (min w g.w) then old x y else here cells x y)
  copied_row cells x y y0 e hx hy h0 =
      rw
        (
          get_or-overwrite cells (row y0) (y0 * w) (y * w + x) default_cell,
          length-row g (min w g.w) y0 v (omega arith) h0,
          row_hit w (min w g.w) x y y0 hx (omega arith),
          lt→ltb (y * w + x) (length cells) (omega (arith, index_bound w h x y hx hy)),
        )
        (elim (Bool-cases (y == y0 && ltb x (min w g.w))) [
          | inr miss ↦ rw miss
          | inl hit ↦
              let same : y ≡ y0 = ground arith in
              let near : x < min w g.w = ground arith in
              let shift : y * w + x - y0 * w ≡ x = omega (arith, ap (λ (t : ℕ). t * w) same) in
              rw (
                hit,
                shift,
                get_or-take (min w g.w) x (drop (y0 * g.w) g.cells) default_cell near,
                get_or-drop (y0 * g.w) x g.cells default_cell,
                same,
              )
        ])

  copied_rows :
      (n y0 : ℕ) (cells : List Cell) (x y : ℕ)
      → length cells ≡ w * h
      → x < w
      → y < h
      → y0 + n ≤ g.h
      → here (copy_rows g w n y0 cells) x y
        ≡ (if (leb y0 y && ltb y (y0 + n)) && ltb x (min w g.w) then old x y else here cells x y)
  unfolding copy_rows
  copied_rows zero y0 cells x y e hx hy hn = ground arith
  copied_rows (suc n) y0 cells x y e hx hy hn =
      let next = overwrite cells (y0 * w) (row y0) in
      let len : length next ≡ w * h = length-overwrite cells (y0 * w) (row y0) ∙ e in
      rw
        (
          copied_rows n (y0 + 1) next x y len hx hy (omega arith),
          copied_row cells x y y0 e hx hy (omega arith),
        )
        (ground arith)

resized : Grid → ℕ → ℕ → Grid
resized g w h = record {
  w = w;
  h = h;
  cells = copy_rows g w (min h g.h) 0 (replicate (w * h) default_cell);
}

kept_inside :
    (g : Grid) (w h : ℕ) (x y : ℤ)
    → IsGrid g
    → outside w h x y ≡ false
    → get_or
        (copy_rows g w (min h g.h) 0 (replicate (w * h) default_cell))
        (index w x y)
        default_cell
      ≡ at g x y
unfolding index at outside
kept_inside g w h x y v i =
    let (ex, ey, hx, hy) = inside_parts w h x y i in
    let a = pos_part x in
    let b = pos_part y in
    let cells = replicate (w * h) default_cell in
    rw
      (
        copied_rows g w h v (min h g.h) 0 cells a b (length-replicate (w * h) default_cell) hx hy
            (omega arith),
        get_or-replicate (w * h) (b * w + a) default_cell,
      )
      (ground arith)

at-resized :
    (g : Grid) (w h : ℕ) (x y : ℤ)
    → IsGrid g
    → at (resized g w h) x y ≡ (if outside w h x y then default_cell else at g x y)
unfolding resized
at-resized g w h x y v = elim (Bool-cases (outside w h x y)) [
  | inl o ↦ rw o (at-outside (resized g w h) x y o)
  | inr i ↦ rw i (at_inside (resized g w h) x y i ∙ kept_inside g w h x y v i)
]

at_same_size :
    (g : Grid) (x y : ℤ) → at g x y ≡ (if outside g.w g.h x y then default_cell else at g x y)
unfolding at
at_same_size g x y = elim (Bool-cases (outside g.w g.h x y)) [ inl o ↦ rw o | inr i ↦ rw i ]

resize_same : (g : Grid) (w h : ℤ) → (clip w == g.w && clip h == g.h) ≡ true → resize g w h ≡ g
unfolding resize
resize_same g w h e = rw e

resize_other :
    (g : Grid) (w h : ℤ)
    → (clip w == g.w && clip h == g.h) ≡ false
    → resize g w h ≡ resized g (clip w) (clip h)
unfolding resize resized
resize_other g w h e = rw e

-- After `Resize` a position inside the new size reads as it did before, as a default cell where the
-- old grid had none, and every other position reads as a default cell.
pub at-resize :
    (g : Grid) (w h x y : ℤ)
    → IsGrid g
    → at (resize g w h) x y ≡ (if outside (clip w) (clip h) x y then default_cell else at g x y)
at-resize g w h x y v = elim (Bool-cases (clip w == g.w && clip h == g.h)) [
  | inr other ↦ rw (resize_other g w h other) (at-resized g (clip w) (clip h) x y v)
  | inl same ↦
      let ew : clip w ≡ g.w = ground arith in
      let eh : clip h ≡ g.h = ground arith in
      rw (resize_same g w h same, ew, eh) (at_same_size g x y)
]
