-- ===== src/Wire.antt =====
-- internal/wire/wire.go, with the messages of proto/shevet/v1 that it fills, and the Pane of
-- internal/herd/herd.go. A message field of type uint32 is a number below 2 ^ 32.
pub mod RoundTrip
use shevet.Prelude.{
  ℕ, ◌-◌, ◌%◌, ◌^◌, Bool, false, Option, none, some, List, map, ℤ, pos, negsuc, Bytes,
}
use shevet.Grid.{Cursor, CellPatch}

-- `uint32(v)` of an int: the low 32 bits of its two's complement.
unfoldable pub uint32 : ℤ → ℕ
uint32 (pos n) = n % 2 ^ 32
uint32 (negsuc n) = 2 ^ 32 - 1 - n % 2 ^ 32

-- `herd.Pane`
pub record Pane : Type 0 where
  pub id : Bytes
  pub title : Bytes

-- The message `Pane`.
pub record PaneMessage : Type 0 where
  pub pane_id : Bytes
  pub pane_title : Bytes

unfoldable pub pane_to_proto : Pane → PaneMessage
pane_to_proto p = record { pane_id = p.id; pane_title = p.title }

unfoldable pub pane_from_proto : PaneMessage → Pane
pane_from_proto p = record { id = p.pane_id; title = p.pane_title }

-- The message `CellPatch`.
pub record PatchMessage : Type 0 where
  pub x : ℕ
  pub y : ℕ
  pub content : Bytes
  pub width : ℕ
  pub fg : ℕ
  pub bg : ℕ
  pub attrs : ℕ

unfoldable pub patch_to_proto : CellPatch → PatchMessage
unfolding uint32
patch_to_proto p = record {
  x = uint32 p.x;
  y = uint32 p.y;
  content = p.cell.content;
  width = uint32 p.cell.width;
  fg = p.cell.fg % 2 ^ 32;
  bg = p.cell.bg % 2 ^ 32;
  attrs = p.cell.attrs % 2 ^ 32;
}

unfoldable pub patch_from_proto : PatchMessage → CellPatch
patch_from_proto p = record {
  x = pos p.x;
  y = pos p.y;
  cell = record { content = p.content; width = pos p.width; fg = p.fg; bg = p.bg; attrs = p.attrs };
}

-- The message `Cursor`.
pub record CursorMessage : Type 0 where
  pub x : ℕ
  pub y : ℕ
  pub hidden : Bool

unfoldable pub cursor_to_proto : Cursor → CursorMessage
unfolding uint32
cursor_to_proto c = record { x = uint32 c.x; y = uint32 c.y; hidden = c.hidden }

-- The getters of a message that is missing give the zero values.
unfoldable pub cursor_from_proto : Option CursorMessage → Cursor
cursor_from_proto none = record { x = pos 0; y = pos 0; hidden = false }
cursor_from_proto (some c) = record { x = pos c.x; y = pos c.y; hidden = c.hidden }

-- The message `CellDamage`.
pub record DamageMessage : Type 0 where
  pub cells : List PatchMessage
  pub cursor : Option CursorMessage

unfoldable pub damage_to_proto : List CellPatch → Cursor → DamageMessage
unfolding patch_to_proto cursor_to_proto
damage_to_proto cells cursor = record {
  cells = map patch_to_proto cells;
  cursor = some (cursor_to_proto cursor);
}

unfoldable pub damage_from_proto : DamageMessage → List CellPatch × Cursor
unfolding patch_from_proto cursor_from_proto
damage_from_proto d = (map patch_from_proto d.cells, cursor_from_proto d.cursor)
