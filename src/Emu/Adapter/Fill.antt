-- ===== src/Emu/Adapter/Fill.antt =====
-- internal/emu/emu.go: what the loops of `Snapshot` leave in a grid.
use shevet.Prelude.{
  ℕ, suc, zero, ◌+◌, ◌≤◌, ◌<◌, ◌≡◌, sym, ap, ◌∙◌, inl, inr, Bool, true, false, ◌&&◌, arith, ltb,
  leb, ◌==◌, if◌then◌else◌, Bool-cases, if_false, ℤ, pos, ℕ_discrete,
}
use shevet.Grid.{Cell, Grid, default_cell, at, put, outside}
use shevet.Grid.Bounds.{IsGrid, put-IsGrid, at-put, at-outside, same_place}
use shevet.Emu.Adapter.{fill_row, fill_rows}

-- Of the size given, with a cell for each position.
abbrev pub HasSize : ℕ → ℕ → Grid → Type 0
HasSize w h g = (g.w ≡ w) × (g.h ≡ h) × IsGrid g

-- Of the size given.
abbrev pub Sized : ℕ → ℕ → Grid → Type 0
Sized w h g = (g.w ≡ w) × (g.h ≡ h)

fill_row-Sized :
    (cells : ℕ → ℕ → Cell) (w h n x y : ℕ) (g : Grid)
    → Sized w h g
    → Sized w h (fill_row cells n x y g)
unfolding fill_row put
fill_row-Sized cells w h zero x y g s = s
fill_row-Sized cells w h (suc n) x y g s =
    fill_row-Sized cells w h n (x + 1) y _ (ground arith, ground arith)

pub fill_rows-Sized :
    (cells : ℕ → ℕ → Cell) (w h v n y : ℕ) (g : Grid)
    → Sized w h g
    → Sized w h (fill_rows cells v n y g)
unfolding fill_rows
fill_rows-Sized cells w h v zero y g s = s
fill_rows-Sized cells w h v (suc n) y g s =
    fill_rows-Sized cells w h v n (y + 1) _ (fill_row-Sized cells w h v 0 y g s)

put-HasSize : (w h : ℕ) (g : Grid) (x y : ℤ) (c : Cell) → HasSize w h g → HasSize w h (put g x y c)
unfolding put
put-HasSize w h g x y c s = (ground arith, ground arith, put-IsGrid g x y c s.2)

inside :
    (w h : ℕ) (g : Grid) (x y : ℕ)
    → HasSize w h g
    → x < w
    → y < h
    → outside g.w g.h (pos x) (pos y) ≡ false
unfolding outside
inside w h g x y s hx hy = ground arith

fill_row-HasSize :
    (cells : ℕ → ℕ → Cell) (w h n x y : ℕ) (g : Grid)
    → HasSize w h g
    → HasSize w h (fill_row cells n x y g)
unfolding fill_row
fill_row-HasSize cells w h zero x y g s = s
fill_row-HasSize cells w h (suc n) x y g s =
    fill_row-HasSize cells w h n (x + 1) y _ (put-HasSize w h g (pos x) (pos y) (cells x y) s)

pub fill_rows-HasSize :
    (cells : ℕ → ℕ → Cell) (w h v n y : ℕ) (g : Grid)
    → HasSize w h g
    → HasSize w h (fill_rows cells v n y g)
unfolding fill_rows
fill_rows-HasSize cells w h v zero y g s = s
fill_rows-HasSize cells w h v (suc n) y g s =
    fill_rows-HasSize cells w h v n (y + 1) _ (fill_row-HasSize cells w h v 0 y g s)

in_row : ℕ → ℕ → ℕ → ℕ → ℕ → Bool
in_row n x y x' y' = y == y' && (leb x x' && ltb x' (x + n))

-- One more column: the write, and then those behind it.
merge_row :
    {A : Type 0} (cells : ℕ → ℕ → A) (n x y x' y' : ℕ) (a : A)
    → (if in_row n (x + 1) y x' y'
        then cells x' y'
        else if same_place (pos x) (pos y) (pos x') (pos y')
        then cells x y
        else a)
      ≡ (if in_row (suc n) x y x' y' then cells x' y' else a)
unfolding in_row
merge_row cells n x y x' y' a = elim (ℕ_discrete x x') [
  | no e ↦ ground arith
  | yes e ↦ elim (ℕ_discrete y y') [ no f ↦ ground arith | yes f ↦ rw (e, f) (ground arith) ]
]

at-fill_row :
    (cells : ℕ → ℕ → Cell) (w h n x y x' y' : ℕ) (g : Grid)
    → HasSize w h g
    → x + n ≤ w
    → y < h
    → at (fill_row cells n x y g) (pos x') (pos y')
      ≡ (if in_row n x y x' y' then cells x' y' else at g (pos x') (pos y'))
unfolding fill_row in_row
at-fill_row cells w h zero x y x' y' g s b hy = ground arith
at-fill_row cells w h (suc n) x y x' y' g s b hy =
    let s' = put-HasSize w h g (pos x) (pos y) (cells x y) s in
    let later =
      at-fill_row cells w h n (x + 1) y x' y' (put g (pos x) (pos y) (cells x y)) s' (omega arith)
        hy in
    let here =
      at-put g (pos x) (pos y) (pos x') (pos y') (cells x y) s.2
        (inside w h g x y s (omega arith) hy) in
    later
    ∙ (ap (λ c. if in_row n (x + 1) y x' y' then cells x' y' else c) here
        ∙ merge_row cells n x y x' y' (at g (pos x') (pos y')))

in_rows : ℕ → ℕ → ℕ → ℕ → ℕ → Bool
in_rows w n y x' y' = ltb x' w && (leb y y' && ltb y' (y + n))

merge_rows :
    {A : Type 0} (w n y x' y' : ℕ) (b a : A)
    → (if in_rows w n (y + 1) x' y' then b else if in_row w 0 y x' y' then b else a)
      ≡ (if in_rows w (suc n) y x' y' then b else a)
unfolding in_row in_rows
merge_rows w n y x' y' b a = ground arith

at-fill_rows :
    (cells : ℕ → ℕ → Cell) (w h n y x' y' : ℕ) (g : Grid)
    → HasSize w h g
    → y + n ≤ h
    → at (fill_rows cells w n y g) (pos x') (pos y')
      ≡ (if in_rows w n y x' y' then cells x' y' else at g (pos x') (pos y'))
unfolding fill_rows in_rows
at-fill_rows cells w h zero y x' y' g s b = ground arith
at-fill_rows cells w h (suc n) y x' y' g s b =
    at-fill_rows cells w h n (y + 1) x' y' (fill_row cells w 0 y g)
      (fill_row-HasSize cells w h w 0 y g s) (omega arith)
    ∙ (ap (λ c. if in_rows w n (y + 1) x' y' then cells x' y' else c)
          (at-fill_row cells w h w 0 y x' y' g s (omega arith) (omega arith))
        ∙ merge_rows w n y x' y' (cells x' y') (at g (pos x') (pos y')))

-- The loops over a whole grid write every cell that it has.
pub at-fill_all :
    (cells : ℕ → ℕ → Cell) (w h x y : ℕ) (g : Grid)
    → HasSize w h g
    → at (fill_rows cells w h 0 g) (pos x) (pos y)
      ≡ (if ltb x w && ltb y h then cells x y else default_cell)
unfolding outside
at-fill_all cells w h x y g s = elim (Bool-cases (ltb x w && ltb y h)) [
  | inl t ↦ at-fill_rows cells w h h 0 x y g s (omega arith) ∙ (unfold in_rows in ground arith)
  | inr f ↦
      at-outside (fill_rows cells w h 0 g) (pos x) (pos y)
        (out (fill_rows cells w h 0 g) (fill_rows-HasSize cells w h w h 0 g s) f)
      ∙ sym (if_false (ltb x w && ltb y h) (cells x y) default_cell f)
]
  where
    out :
        (k : Grid)
        → HasSize w h k
        → (ltb x w && ltb y h) ≡ false
        → outside k.w k.h (pos x) (pos y) ≡ true
    out k s f = ground arith
