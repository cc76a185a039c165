-- ===== src/Emu/Adapter.antt =====
-- internal/emu/emu.go: the adapter of the terminal library, which is a parameter with what its
-- documentation promises. The library's cells and styles are modelled by the fields that are read.
pub mod Cells
pub mod Fill
pub mod Laws
use shevet.Prelude.{
  ℕ, suc, zero, ◌+◌, ◌/◌, ◌%◌, ◌^◌, Bool, false, not, ◌&&◌, ◌||◌, Option, none, some, List, [], ◌∷◌,
  ◌==◌, if◌then◌else◌, ℤ, pos, clip, Bytes, codes, bytes_eq,
}
use shevet.Grid.{Cell, Grid, default_cell, put, resize}
use shevet.Emu.{Emulator}
use shevet.Tui.Render.{rgb}

-- What is read of a style: its colors as the 16-bit components of `RGBA`, and its attributes.
pub record Style : Type 0 where
  pub fg : Option (ℕ × ℕ × ℕ)
  pub bg : Option (ℕ × ℕ × ℕ)
  pub bold : Bool
  pub faint : Bool
  pub italic : Bool
  pub blink : Bool
  pub reverse : Bool
  pub strikethrough : Bool
  pub underline : ℕ

-- The library's cell.
pub record VtCell : Type 0 where
  pub content : Bytes
  pub width : ℤ
  pub style : Style

-- An unstyled blank of one column.
abbrev pub blank_cell : VtCell
blank_cell = record {
  content = codes " ";
  width = pos 1;
  style = record {
    fg = none;
    bg = none;
    bold = false;
    faint = false;
    italic = false;
    blink = false;
    reverse = false;
    strikethrough = false;
    underline = 0;
  };
}

-- The terminal library. A write also returns the visibilities that it reports to the callback.
pub record Vt : Type 1 where
  pub Screen : Type 0
  pub start : ℤ → ℤ → Screen
  pub set_scrollback : ℕ → Screen → Screen
  pub write : Bytes → Screen → Screen × List Bool
  pub resize : ℤ → ℤ → Screen → Screen
  pub width : Screen → ℤ
  pub height : Screen → ℤ
  pub cell_at : Screen → ℕ → ℕ → Option VtCell
  pub position : Screen → ℤ × ℤ

-- `convertColor`
unfoldable pub convert_color : Option (ℕ × ℕ × ℕ) → ℕ
unfolding rgb
convert_color none = 0
convert_color (some (r, g, b)) = rgb (r / 256 % 256) (g / 256 % 256) (b / 256 % 256)

-- `a |= m.to`, where `a` does not have that attribute yet.
abbrev with_attr : Bool → ℕ → ℕ → ℕ
with_attr b k a = if b then a + 2 ^ k else a

-- `convertAttrs`
unfoldable pub convert_attrs : Style → ℕ
convert_attrs s = with_attr (not (s.underline == 0)) 3 (
    with_attr s.strikethrough 6 (
      with_attr s.reverse 5
        (with_attr s.blink 4 (with_attr s.italic 2 (with_attr s.faint 1 (with_attr s.bold 0 0))))))

-- An unstyled blank.
abbrev pub is_plain_blank : Cell → Bool
is_plain_blank c =
    (bytes_eq c.content [] || bytes_eq c.content (codes " "))
    && (c.fg == 0 && (c.bg == 0 && c.attrs == 0))

abbrev pub normal : Cell → Cell
normal c = if is_plain_blank c then default_cell else c

-- `convertCell`
unfoldable pub convert_cell : Option VtCell → Cell
unfolding convert_color convert_attrs bytes_eq
convert_cell none = default_cell
convert_cell (some c) = normal (record {
  content = c.content;
  width = c.width;
  fg = convert_color c.style.fg;
  bg = convert_color c.style.bg;
  attrs = convert_attrs c.style;
})

-- The loops of `Snapshot`: columns of a row, from column `x` on, then rows, from row `y` on.
unfoldable pub fill_row : (ℕ → ℕ → Cell) → ℕ → ℕ → ℕ → Grid → Grid
unfolding put
fill_row cells zero x y g = g
fill_row cells (suc n) x y g = fill_row cells n (x + 1) y (put g (pos x) (pos y) (cells x y))

unfoldable pub fill_rows : (ℕ → ℕ → Cell) → ℕ → ℕ → ℕ → Grid → Grid
unfolding fill_row
fill_rows cells w zero y g = g
fill_rows cells w (suc n) y g = fill_rows cells w n (y + 1) (fill_row cells w 0 y g)

-- The last reported visibility, or the one before.
unfoldable pub last_hidden : Bool → List Bool → Bool
last_hidden hidden [] = hidden
last_hidden hidden (visible ∷ vs) = last_hidden (not visible) vs

module _ (V : Vt) where
  -- `vtEmulator`
  pub record VtEmulator : Type 0 where
    pub term : V.Screen
    pub cursor_hidden : Bool

  abbrev pub converted : VtEmulator → ℕ → ℕ → Cell
  converted e x y = convert_cell (V.cell_at e.term x y)

  -- `Snapshot`
  unfoldable pub take_snapshot : VtEmulator → Grid → Grid
  unfolding fill_rows resize convert_cell
  take_snapshot e dst =
      let w = V.width e.term in
      let h = V.height e.term in fill_rows (converted e) (clip w) (clip h) 0 (resize dst w h)

  -- The adapter, with `New`.
  abbrev pub adapter : Emulator
  adapter = record {
    Term = VtEmulator;
    start = λ w h. record { term = V.set_scrollback 1 (V.start w h); cursor_hidden = false };
    write = λ bytes e. record {
      term = (V.write bytes e.term).0;
      cursor_hidden = last_hidden e.cursor_hidden (V.write bytes e.term).1;
    };
    resize = λ w h e. record e { term = V.resize w h e.term };
    size = λ e. record { w = V.width e.term; h = V.height e.term };
    snapshot = take_snapshot;
    cursor = λ e. record {
      x = (V.position e.term).0;
      y = (V.position e.term).1;
      hidden = e.cursor_hidden;
    };
  }
