-- ===== src/Emu.antt =====
-- internal/emu/emu.go: the emulator behind its interface, and what the interface documents.
pub mod Adapter
use shevet.Prelude.{◌≡◌, false, ◌++◌, ℤ, pos, ◌≤ℤ◌, clip, Bytes}
use shevet.Grid.{Cursor, Size, Grid, new}
use shevet.Grid.Bounds.{IsGrid}

-- `Emulator`: bytes in, grid out. A terminal is a value, and `start` is the constructor `New`.
pub record Emulator : Type 1 where
  pub Term : Type 0
  pub start : ℤ → ℤ → Term
  pub write : Bytes → Term → Term
  pub resize : ℤ → ℤ → Term → Term
  pub size : Term → Size
  pub snapshot : Term → Grid → Grid
  pub cursor : Term → Cursor

-- A size that a Pane can have.
abbrev pub IsPositive : ℤ → Type 0
IsPositive v = pos 1 ≤ℤ v

pub record EmulatorLaws (E : Emulator) : Type 0 where
  -- The size is that of the last resize, and output does not change it.
  pub size_start :
      (w h : ℤ) → IsPositive w → IsPositive h → E.size (E.start w h) ≡ record { w = w; h = h }
  pub size_write : (bytes : Bytes) (t : E.Term) → E.size (E.write bytes t) ≡ E.size t
  pub size_resize :
      (w h : ℤ) (t : E.Term)
      → IsPositive w
      → IsPositive h
      → E.size (E.resize w h t) ≡ record { w = w; h = h }
  -- A snapshot is a grid of the terminal's size, whatever the grid that it is copied into.
  pub snapshot_grid : (t : E.Term) (g : Grid) → IsGrid g → IsGrid (E.snapshot t g)
  pub snapshot_w : (t : E.Term) (g : Grid) → (E.snapshot t g).w ≡ clip (E.size t).w
  pub snapshot_h : (t : E.Term) (g : Grid) → (E.snapshot t g).h ≡ clip (E.size t).h
  pub snapshot_any :
      (t : E.Term) (g k : Grid) → IsGrid g → IsGrid k → E.snapshot t g ≡ E.snapshot t k
  -- A new terminal is blank, with its cursor at home.
  pub start_blank :
      (w h : ℤ) (g : Grid)
      → IsPositive w
      → IsPositive h
      → IsGrid g
      → E.snapshot (E.start w h) g ≡ new w h
  pub start_home :
      (w h : ℤ)
      → IsPositive w
      → IsPositive h
      → E.cursor (E.start w h) ≡ record { x = pos 0; y = pos 0; hidden = false }
  -- Escape sequences may be split across writes.
  pub write_append : (a b : Bytes) (t : E.Term) → E.write (a ++ b) t ≡ E.write b (E.write a t)
