-- ===== src/Client.antt =====
-- internal/client/client.go: what a Client makes of a Pane's render stream.
pub mod Input
pub mod Transport
use shevet.Prelude.{ℕ, Bool, true, false, Option, none, some, List, [], ◌∷◌, if◌then◌else◌, pos}
use shevet.Grid.{Cursor, Size, CellPatch, Grid, new, apply_all}
use shevet.Wire.{DamageMessage, damage_from_proto}

-- The message `PaneUpdate`, by the case of its oneof; `unknown` is one that this Client has no case for.
pub data UpdateMessage : Type 0 where
  resized_message : ℕ → ℕ → UpdateMessage
  damage_message : DamageMessage → UpdateMessage
  exited_message : UpdateMessage
  unknown_message : UpdateMessage

-- `PaneUpdate`
pub record PaneUpdate : Type 0 where
  pub resized : Option Size
  pub damage : Option (List CellPatch)
  pub cursor : Cursor
  pub exited : Bool

abbrev pub zero_cursor : Cursor
zero_cursor = record { x = pos 0; y = pos 0; hidden = false }

abbrev pub zero_update : PaneUpdate
zero_update = record { resized = none; damage = none; cursor = zero_cursor; exited = false }

-- `PaneView`
pub record PaneView : Type 0 where
  pub grid : Grid
  pub cursor : Cursor
  pub exited : Bool

-- `NewPaneView`
unfoldable pub new_view : PaneView
unfolding new
new_view = record { grid = new (pos 0) (pos 0); cursor = zero_cursor; exited = false }

apply_damage : PaneView → PaneUpdate → Option (List CellPatch) → PaneView
apply_damage v u none = v
apply_damage v u (some ps) = record v { grid = apply_all v.grid ps; cursor = u.cursor }

apply_resized : PaneView → PaneUpdate → Option Size → PaneView
unfolding apply_damage
apply_resized v u none = apply_damage v u u.damage
apply_resized v u (some s) = record v { grid = new s.w s.h }

-- `PaneView.Apply`: the first case that fits.
unfoldable pub apply_update : PaneView → PaneUpdate → PaneView
unfolding apply_resized
apply_update v u = if u.exited then record v { exited = true } else apply_resized v u u.resized

-- The body of `PaneWatch.Recv` on a message that has arrived; `none` is its error.
unfoldable pub recv : UpdateMessage → Option PaneUpdate
recv (resized_message w h) =
    some (record zero_update { resized = some (record { w = pos w; h = pos h }) })
recv (damage_message d) =
    let (damage, cursor) = damage_from_proto d in
    some (record zero_update { damage = some damage; cursor = cursor })
recv exited_message = some (record zero_update { exited = true })
recv unknown_message = none

-- A view after a run of messages; one that cannot be read ends the run with its error.
unfoldable pub watch : PaneView → List UpdateMessage → Option PaneView
unfolding recv apply_update
watch v [] = some v
watch v (m ∷ ms) = elim (recv m) [ none ↦ none | some u ↦ watch (apply_update v u) ms ]
