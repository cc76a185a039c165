-- ===== src/Pipeline/Views.antt =====
-- What a subscriber's updates show, folded into the Client's view of the Pane.
use shevet.Prelude.{
  ℕ, ◌≡◌, refl, sym, ap, ◌∙◌, false, Option, none, some, List, [], ◌∷◌, ◌++◌, append_assoc, arith,
  ℤ,
}
use shevet.Grid.{Cursor, Size, CellPatch, Grid, new, apply_all}
use shevet.Grid.Bounds.{IsGrid}
use shevet.Grid.Patches.{apply_all-snapshot}
use shevet.Client.{PaneView, new_view}
use shevet.Pipeline.Subscribers.{RenderUpdate, Subscriber, sync_update, resize_update}

abbrev pub shown_damage : PaneView → Cursor → Option (List CellPatch) → PaneView
shown_damage v c none = v
shown_damage v c (some ps) = record v { grid = apply_all v.grid ps; cursor = c }

abbrev pub shown_resize : PaneView → Option Size → PaneView
shown_resize v none = v
shown_resize v (some z) = record v { grid = new z.w z.h }

-- The view after one update: its resize first, then its damage.
unfoldable pub shown : PaneView → RenderUpdate → PaneView
shown v u = shown_damage (shown_resize v u.resized) u.cursor u.damage

unfoldable pub shown_all : PaneView → List RenderUpdate → PaneView
unfolding shown
shown_all v [] = v
shown_all v (u ∷ us) = shown_all (shown v u) us

pub shown_all-append :
    (v : PaneView) (us ws : List RenderUpdate)
    → shown_all v (us ++ ws) ≡ shown_all (shown_all v us) ws
unfolding shown_all
shown_all-append v [] ws = refl
shown_all-append v (u ∷ us) ws = shown_all-append (shown v u) us ws

-- A live view of a screen.
abbrev pub view_of : Grid → Cursor → PaneView
view_of g c = record { grid = g; cursor = c; exited = false }

pub shown-sync_update :
    (v : PaneView) (g : Grid) (c : Cursor)
    → IsGrid g
    → v.exited ≡ false
    → shown v (sync_update g c) ≡ view_of g c
unfolding shown sync_update
shown-sync_update v g c h e =
    λ i. record { grid = apply_all-snapshot g h i; cursor = c; exited = e i }

pub shown-resize_update :
    (g : Grid) (c : Cursor) (w h : ℤ)
    → shown (view_of g c) (resize_update w h) ≡ view_of (new w h) c
unfolding shown resize_update
shown-resize_update g c w h = refl

-- What a subscriber has received and what its channel holds, as one view.
unfoldable pub view_after : Subscriber → PaneView
view_after s = shown_all new_view (s.received ++ s.queue)

-- The view is live, whatever has been received.
shown_all-exited : (v : PaneView) (us : List RenderUpdate) → (shown_all v us).exited ≡ v.exited
unfolding shown_all
shown_all-exited v [] = refl
shown_all-exited v (u ∷ us) = shown_all-exited (shown v u) us ∙ (unfold shown in ground arith)

pub view_after-exited : (s : Subscriber) → (view_after s).exited ≡ false
unfolding view_after
view_after-exited s = shown_all-exited new_view (s.received ++ s.queue) ∙ (unfold new_view in refl)

-- One more update in the channel.
pub view_after-append :
    (s : Subscriber) (u : RenderUpdate)
    → view_after (record s { queue = s.queue ++ u ∷ [] }) ≡ shown (view_after s) u
unfolding view_after
view_after-append s u =
    ap (shown_all new_view) (sym (append_assoc s.received s.queue (u ∷ [])))
    ∙ shown_all-append new_view (s.received ++ s.queue) (u ∷ [])
    ∙ (unfold shown_all in refl)

-- The view does not hang on the lagged flag.
pub view_after-resync :
    (s : Subscriber) (u : RenderUpdate)
    → view_after (record s { queue = s.queue ++ u ∷ []; lagged = false }) ≡ shown (view_after s) u
unfolding view_after
view_after-resync s u = view_after-append s u

-- Nor on what the reader has taken already.
pub view_after-take :
    (s : Subscriber) (u : RenderUpdate) (us : List RenderUpdate)
    → s.queue ≡ u ∷ us
    → view_after (record s { received = s.received ++ u ∷ []; queue = us }) ≡ view_after s
unfolding view_after
view_after-take s u us e =
    ap (shown_all new_view)
      (append_assoc s.received (u ∷ []) us ∙ ap (λ q. s.received ++ q) (sym e))

pub view_after-first :
    (k : ℕ) (u : RenderUpdate)
    → view_after (record { key = k; received = []; queue = u ∷ []; exited = false; lagged = false })
      ≡ shown new_view u
unfolding view_after shown_all
view_after-first k u = refl

pub shown-damage :
    (g g' : Grid) (c c' : Cursor) (ps : List CellPatch)
    → apply_all g ps ≡ g'
    → shown (view_of g c) (record { resized = none; damage = some ps; cursor = c' }) ≡ view_of g' c'
unfolding shown
shown-damage g g' c c' ps e = λ i. record { grid = e i; cursor = c'; exited = false }
