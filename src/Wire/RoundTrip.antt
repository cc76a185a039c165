-- ===== src/Wire/RoundTrip.antt =====
-- What is written to the wire is read back.
use shevet.Prelude.{
  ℕ, ◌%◌, ◌^◌, ◌<◌, ◌≡◌, refl, some, List, [], ◌∷◌, map, arith, All, ℤ, pos, pos_part,
}
use shevet.Grid.{Cursor, CellPatch}
use shevet.Wire.{
  uint32, Pane, pane_to_proto, pane_from_proto, patch_to_proto, patch_from_proto, cursor_to_proto,
  cursor_from_proto, damage_to_proto, damage_from_proto,
}

-- An int that a uint32 holds.
abbrev pub FitsWord : ℤ → Type 0
FitsWord v = (v ≡ pos (pos_part v)) × (pos_part v < 2 ^ 32)

pub record FitsWire (p : CellPatch) : Type 0 where
  pub column : FitsWord p.x
  pub row : FitsWord p.y
  pub width : FitsWord p.cell.width
  pub fg : p.cell.fg < 2 ^ 32
  pub bg : p.cell.bg < 2 ^ 32
  pub attrs : p.cell.attrs < 2 ^ 32

abbrev pub CursorFits : Cursor → Type 0
CursorFits c = FitsWord c.x × FitsWord c.y

pub uint32_fits : (v : ℤ) → FitsWord v → pos (uint32 v) ≡ v
unfolding uint32
uint32_fits v h = ground arith

low_word : (n : ℕ) → n < 2 ^ 32 → n % 2 ^ 32 ≡ n
low_word n h = omega arith

pub patch_round_trip : (p : CellPatch) → FitsWire p → patch_from_proto (patch_to_proto p) ≡ p
unfolding patch_from_proto uint32 patch_to_proto
patch_round_trip p h = λ i. record {
  x = uint32_fits p.x h.column i;
  y = uint32_fits p.y h.row i;
  cell = record {
    content = p.cell.content;
    width = uint32_fits p.cell.width h.width i;
    fg = low_word p.cell.fg h.fg i;
    bg = low_word p.cell.bg h.bg i;
    attrs = low_word p.cell.attrs h.attrs i;
  };
}

pub cursor_round_trip :
    (c : Cursor) → CursorFits c → cursor_from_proto (some (cursor_to_proto c)) ≡ c
unfolding cursor_from_proto uint32 cursor_to_proto
cursor_round_trip c h =
    λ i. record { x = uint32_fits c.x h.0 i; y = uint32_fits c.y h.1 i; hidden = c.hidden }

patches_round_trip :
    (ps : List CellPatch) → All FitsWire ps → map patch_from_proto (map patch_to_proto ps) ≡ ps
patches_round_trip [] h = refl
patches_round_trip (p ∷ ps) h = cc (patch_round_trip p h.0, patches_round_trip ps h.1)

-- A batch of patches whose numbers fit the wire comes back from it as it was, with its cursor.
pub damage_round_trip :
    (ps : List CellPatch) (c : Cursor)
    → All FitsWire ps
    → CursorFits c
    → damage_from_proto (damage_to_proto ps c) ≡ (ps, c)
unfolding damage_from_proto damage_to_proto
damage_round_trip ps c h k = cc (patches_round_trip ps h, cursor_round_trip c k)

pub pane_round_trip : (p : Pane) → pane_from_proto (pane_to_proto p) ≡ p
unfolding pane_from_proto pane_to_proto
pane_round_trip p = refl
