-- ===== src/Emu/Adapter/Laws.antt =====
-- internal/emu/emu.go: the adapter keeps what its interface documents, if the terminal library keeps
-- what its own documentation says.
use mathlib.Core.Path.{subst, ap₂}
use shevet.Prelude.{
  ℕ, suc, zero, ◌*◌, ◌/◌, ◌%◌, ◌≤◌, ◌<◌, ◌≡◌, refl, sym, ap, ◌∙◌, ◌⊎◌, inl, inr, Bool, true, false,
  not, ◌&&◌, none, some, List, [], ◌∷◌, ◌++◌, arith, ltb, if◌then◌else◌, if_true, if_cases, length,
  get_or, get_or-replicate, ext_get_or, ℤ, pos, clip, Bytes, dec_lt,
}
use native.Mathlib.Nat.{div-lt_iff_lt-mul, mul_comm, div-add-mod', mod-lt}
use shevet.Grid.{Cell, Grid, default_cell, new, at, resize, outside, index}
use shevet.Grid.Bounds.{IsGrid, resize-IsGrid, new-IsGrid}
use shevet.Emu.{EmulatorLaws, IsPositive}
use shevet.Emu.Adapter.{
  blank_cell, Vt, VtEmulator, adapter, take_snapshot, last_hidden, convert_cell, converted,
  convert_color, convert_attrs,
}
use shevet.Emu.Adapter.Cells.{Shows, convert_cell-Shows}
use shevet.Emu.Adapter.Fill.{HasSize, at-fill_all, fill_rows-HasSize, fill_rows-Sized}
use shevet.Grid.Patches.{width_pos}

beyond : (cs : List Cell) (i : ℕ) → length cs ≤ i → get_or cs i default_cell ≡ default_cell
beyond [] i h = refl
beyond (c ∷ cs) zero h = absurd (omega arith)
beyond (c ∷ cs) (suc i) h = beyond cs i (omega arith)

same_grid : {g k : Grid} → g.w ≡ k.w → g.h ≡ k.h → g.cells ≡ k.cells → g ≡ k
same_grid a b c = λ i. record { w = a i; h = b i; cells = c i }

resize-HasSize : (g : Grid) (w h : ℤ) → IsGrid g → HasSize (clip w) (clip h) (resize g w h)
unfolding resize
resize-HasSize g w h v = (ground arith, ground arith, resize-IsGrid g w h v)

at_place :
    (w h i : ℕ) (g : Grid)
    → HasSize w h g
    → i < w * h
    → get_or g.cells i default_cell ≡ at g (pos (i % w)) (pos (i / w))
unfolding at outside index
at_place w h i g s lt =
    let pw : 0 < w = width_pos w h i lt in
    let row : i / w < h = (div-lt_iff_lt-mul pw).1 (omega (arith, mul_comm w h)) in
    let col = mod-lt i pw in ground (arith, row, col, div-add-mod' i w)

-- Grids of one size that read alike everywhere are equal.
grid_ext :
    (w h : ℕ) (g k : Grid)
    → HasSize w h g
    → HasSize w h k
    → ((x y : ℕ) → at g (pos x) (pos y) ≡ at k (pos x) (pos y))
    → g ≡ k
grid_ext w h g k s t e =
    same_grid (s.0 ∙ sym t.0) (s.1 ∙ sym t.1)
      (ext_get_or g.cells k.cells default_cell (long g s ∙ sym (long k t)) place)
  where
    long : (g : Grid) → HasSize w h g → length g.cells ≡ w * h
    long g s = s.2 ∙ ap₂ (λ (a b : ℕ). a * b) s.0 s.1

    place : (i : ℕ) → get_or g.cells i default_cell ≡ get_or k.cells i default_cell
    place i = elim (dec_lt i (w * h)) [
      | yes lt ↦ at_place w h i g s lt ∙ (e (i % w) (i / w) ∙ sym (at_place w h i k t lt))
      | no ge ↦
          beyond g.cells i (omega (arith, long g s))
          ∙ sym (beyond k.cells i (omega (arith, long k t)))
    ]

-- What is relied on of the library: the sizes of screens of a column and a row at least, a blank new
-- screen with its cursor at home, and
-- that escape sequences may be split across writes.
pub record VtLaws (V : Vt) : Type 0 where
  pub start_w : (w h : ℤ) → IsPositive w → IsPositive h → V.width (V.start w h) ≡ w
  pub start_h : (w h : ℤ) → IsPositive w → IsPositive h → V.height (V.start w h) ≡ h
  pub start_cell :
      (w h : ℤ) (x y : ℕ)
      → IsPositive w
      → IsPositive h
      → (V.cell_at (V.start w h) x y ≡ none) ⊎ (V.cell_at (V.start w h) x y ≡ some blank_cell)
  pub start_position :
      (w h : ℤ) → IsPositive w → IsPositive h → V.position (V.start w h) ≡ (pos 0, pos 0)
  -- The scrollback is not on the screen.
  pub scrollback_w : (n : ℕ) (s : V.Screen) → V.width (V.set_scrollback n s) ≡ V.width s
  pub scrollback_h : (n : ℕ) (s : V.Screen) → V.height (V.set_scrollback n s) ≡ V.height s
  pub scrollback_cell :
      (n : ℕ) (s : V.Screen) (x y : ℕ) → V.cell_at (V.set_scrollback n s) x y ≡ V.cell_at s x y
  pub scrollback_position :
      (n : ℕ) (s : V.Screen) → V.position (V.set_scrollback n s) ≡ V.position s
  pub write_w : (bytes : Bytes) (s : V.Screen) → V.width (V.write bytes s).0 ≡ V.width s
  pub write_h : (bytes : Bytes) (s : V.Screen) → V.height (V.write bytes s).0 ≡ V.height s
  pub write_split :
      (a b : Bytes) (s : V.Screen)
      → V.write (a ++ b) s
        ≡ ((V.write b (V.write a s).0).0, (V.write a s).1 ++ (V.write b (V.write a s).0).1)
  pub resize_w :
      (w h : ℤ) (s : V.Screen) → IsPositive w → IsPositive h → V.width (V.resize w h s) ≡ w
  pub resize_h :
      (w h : ℤ) (s : V.Screen) → IsPositive w → IsPositive h → V.height (V.resize w h s) ≡ h

last_hidden-append :
    (hidden : Bool) (xs ys : List Bool)
    → last_hidden hidden (xs ++ ys) ≡ last_hidden (last_hidden hidden xs) ys
unfolding last_hidden
last_hidden-append hidden [] ys = refl
last_hidden-append hidden (x ∷ xs) ys = last_hidden-append (not x) xs ys

module _ (V : Vt) where
  snapshot-HasSize :
      (e : VtEmulator V) (g : Grid)
      → IsGrid g
      → HasSize (clip (V.width e.term)) (clip (V.height e.term)) (take_snapshot V e g)
  unfolding take_snapshot
  snapshot-HasSize e g v =
      let w = V.width e.term in
      let h = V.height e.term in
      fill_rows-HasSize (converted V e) (clip w) (clip h) (clip w) (clip h) 0 (resize g w h)
        (resize-HasSize g w h v)

  snapshot-size :
      (e : VtEmulator V) (g : Grid)
      → ((take_snapshot V e g).w ≡ clip (V.width e.term))
        × ((take_snapshot V e g).h ≡ clip (V.height e.term))
  unfolding take_snapshot
  snapshot-size e g =
      let w = V.width e.term in
      let h = V.height e.term in
      fill_rows-Sized (converted V e) (clip w) (clip h) (clip w) (clip h) 0 (resize g w h)
        (unfold resize in ground arith, unfold resize in ground arith)

  -- A snapshot reads as the terminal's cells, whatever it was copied into.
  pub at-take_snapshot :
      (e : VtEmulator V) (g : Grid) (x y : ℕ)
      → IsGrid g
      → at (take_snapshot V e g) (pos x) (pos y) ≡ (
          if ltb x (clip (V.width e.term)) && ltb y (clip (V.height e.term))
          then convert_cell (V.cell_at e.term x y)
          else default_cell)
  unfolding take_snapshot
  at-take_snapshot e g x y v =
      let w = V.width e.term in
      let h = V.height e.term in
      at-fill_all (converted V e) (clip w) (clip h) x y (resize g w h) (resize-HasSize g w h v)

  snapshot_any :
      (e : VtEmulator V) (g k : Grid)
      → IsGrid g
      → IsGrid k
      → take_snapshot V e g ≡ take_snapshot V e k
  snapshot_any e g k v u =
      grid_ext (clip (V.width e.term)) (clip (V.height e.term)) _ _ (snapshot-HasSize e g v)
        (snapshot-HasSize e k u)
        (λ x y. at-take_snapshot e g x y v ∙ sym (at-take_snapshot e k x y u))

  adapter_size_resize :
      (L : VtLaws V) (w h : ℤ) (e : VtEmulator V)
      → IsPositive w
      → IsPositive h
      → (adapter V).size ((adapter V).resize w h e) ≡ record { w = w; h = h }
  adapter_size_resize L w h e pw ph =
      λ i. record { w = L.resize_w w h e.term pw ph i; h = L.resize_h w h e.term pw ph i }

  new_cell :
      (L : VtLaws V) (w h : ℤ) (x y : ℕ)
      → IsPositive w
      → IsPositive h
      → convert_cell (V.cell_at (V.set_scrollback 1 (V.start w h)) x y) ≡ default_cell
  unfolding convert_cell convert_color convert_attrs
  new_cell L w h x y pw ph =
      ap convert_cell (L.scrollback_cell 1 (V.start w h) x y)
      ∙ elim (L.start_cell w h x y pw ph) [ inl e ↦ ap convert_cell e | inr e ↦ ap convert_cell e ]

  if_same :
      (b : Bool) (c : Cell) → c ≡ default_cell → (if b then c else default_cell) ≡ default_cell
  if_same true c h = h
  if_same false c h = refl

  at-new : (w h : ℤ) (x y : ℕ) → at (new w h) (pos x) (pos y) ≡ default_cell
  unfolding at new
  at-new w h x y =
      let i = index (new w h).w (pos x) (pos y) in
      if_cases (λ c. c ≡ default_cell) (outside (new w h).w (new w h).h (pos x) (pos y))
        default_cell (get_or (new w h).cells i default_cell) (λ o. refl)
        (λ o. get_or-replicate (clip w * clip h) i default_cell)

  start_blank :
      (L : VtLaws V) (w h : ℤ) (g : Grid)
      → IsPositive w
      → IsPositive h
      → IsGrid g
      → take_snapshot V ((adapter V).start w h) g ≡ new w h
  start_blank L w h g pw ph v =
      let e = (adapter V).start w h in
      let ew = L.scrollback_w 1 (V.start w h) ∙ L.start_w w h pw ph in
      let eh = L.scrollback_h 1 (V.start w h) ∙ L.start_h w h pw ph in
      let s = snapshot-HasSize e g v in
      grid_ext (clip w) (clip h) _ (new w h) (s.0 ∙ ap clip ew, s.1 ∙ ap clip eh, s.2)
        (unfold new in refl, unfold new in refl, new-IsGrid w h)
        (λ x y.
          at-take_snapshot e g x y v
          ∙ (if_same _ _ (new_cell L w h x y pw ph) ∙ sym (at-new w h x y)))

  write_append :
      (L : VtLaws V) (a b : Bytes) (e : VtEmulator V)
      → (adapter V).write (a ++ b) e ≡ (adapter V).write b ((adapter V).write a e)
  write_append L a b e =
      λ i. record { term = (L.write_split a b e.term i).0; cursor_hidden = hides i }
    where
      hides :
          last_hidden e.cursor_hidden (V.write (a ++ b) e.term).1
          ≡ last_hidden
              (last_hidden e.cursor_hidden (V.write a e.term).1)
              (V.write b (V.write a e.term).0).1
      hides =
          ap (λ (r : V.Screen × List Bool). last_hidden e.cursor_hidden r.1)
            (L.write_split a b e.term)
          ∙ last_hidden-append e.cursor_hidden (V.write a e.term).1
              (V.write b (V.write a e.term).0).1

  start_home :
      (L : VtLaws V) (w h : ℤ)
      → IsPositive w
      → IsPositive h
      → (adapter V).cursor ((adapter V).start w h) ≡ record { x = pos 0; y = pos 0; hidden = false }
  start_home L w h pw ph =
      let p = L.scrollback_position 1 (V.start w h) ∙ L.start_position w h pw ph in
      λ i. record { x = (p i).0; y = (p i).1; hidden = false }

adapter_keeps : (V : Vt) → VtLaws V → EmulatorLaws (adapter V)
adapter_keeps V L = record {
  size_start = λ w h pw ph. λ i. record {
    w = (L.scrollback_w 1 (V.start w h) ∙ L.start_w w h pw ph) i;
    h = (L.scrollback_h 1 (V.start w h) ∙ L.start_h w h pw ph) i;
  };
  size_write =
      λ bytes e. λ i. record { w = L.write_w bytes e.term i; h = L.write_h bytes e.term i };
  size_resize = adapter_size_resize V L;
  snapshot_grid = λ e g v. (snapshot-HasSize V e g v).2;
  snapshot_w = λ e g. (snapshot-size V e g).0;
  snapshot_h = λ e g. (snapshot-size V e g).1;
  snapshot_any = snapshot_any V;
  start_blank = start_blank V L;
  start_home = start_home V L;
  write_append = write_append V L;
}

-- The adapter of a terminal library that keeps what is relied on is an emulator as the render pipeline
-- relies on: sizes, snapshots that do not depend on the grid they are copied into, a blank start, and
-- output that may be split anywhere. And at each position of the screen a snapshot has the terminal's
-- cell: its content and width, the high bytes of its colors, and its attributes, or the default cell
-- for a blank without colors and attributes, and where there is none.
pub adapter-EmulatorLaws :
    (V : Vt) (e : VtEmulator V) (g : Grid) (x y : ℕ)
    → VtLaws V
    → IsGrid g
    → x < clip (V.width e.term)
    → y < clip (V.height e.term)
    → EmulatorLaws (adapter V)
      × Shows (V.cell_at e.term x y) (at (take_snapshot V e g) (pos x) (pos y))
adapter-EmulatorLaws V e g x y L v hx hy = (
  adapter_keeps V L,
  subst (λ c. Shows (V.cell_at e.term x y) c)
      (sym (
        at-take_snapshot V e g x y v
        ∙ if_true (ltb x (clip (V.width e.term)) && ltb y (clip (V.height e.term)))
            (convert_cell (V.cell_at e.term x y)) default_cell (ground arith)))
      (convert_cell-Shows (V.cell_at e.term x y)),
)
