-- ===== src/Tui/Dashboard/Herd/Keeps.antt =====
-- internal/tui/model.go: a fetched Herd leaves the dashboard's model sound.
use shevet.Prelude.{◌-◌, ◌≤◌, Option, none, some, List, [], arith, if_cases, length}
use shevet.Tui.Focus.{PaneRef, Focus}
use shevet.Tui.Focus.Passthrough.{Ready}
use shevet.Tui.Dashboard.{RefPane, keep_views, Model}
use shevet.Tui.Dashboard.Herd.{is_live, watch_loop, selected_ref, keep_focus, apply_herd}
use shevet.Tui.Dashboard.Herd.Covered.{covered-apply_herd, find_view-apply_herd}
use shevet.Tui.Dashboard.Herd.Follow.{select_loop-bound}
use shevet.Tui.Dashboard.Sound.{FocusUp, Sound}

-- The view of a focused Pane that is live is neither replaced nor deleted.
FocusUp-keep_focus :
    (panes : List RefPane) (m : Model) (f : Option PaneRef)
    → FocusUp f m.views
    → FocusUp (keep_focus panes f) (apply_herd panes m).0.views
unfolding keep_focus apply_herd
FocusUp-keep_focus panes m none h = tt
FocusUp-keep_focus panes m (some ref) (st, e, u) =
    let views = (watch_loop m.conns panes (m.views, [])).0 in
    let kept = keep_views (λ r. is_live r panes) views in
    if_cases (λ f. FocusUp f kept) (is_live ref panes) (some ref) none
      (λ live. (st, find_view-apply_herd panes m ref st live e u.0, u)) (λ _. tt)

Ready-keep_focus :
    (panes : List RefPane) (f : Option PaneRef) (i : Focus)
    → Ready f i.inputs
    → Ready (keep_focus panes f) i.inputs
unfolding keep_focus
Ready-keep_focus panes none i h = tt
Ready-keep_focus panes (some ref) i h =
    if_cases (λ f. Ready f i.inputs) (is_live ref panes) (some ref) none (λ _. h) (λ _. tt)

in_range-apply_herd :
    (panes : List RefPane) (m : Model) → (apply_herd panes m).0.selected ≤ length panes - 1
unfolding apply_herd
in_range-apply_herd panes m =
    select_loop-bound (selected_ref m) 0 (length panes - 1) panes 0 (omega arith) (omega arith)

pub apply_herd-Sound : (panes : List RefPane) (m : Model) → Sound m → Sound (apply_herd panes m).0
unfolding apply_herd
apply_herd-Sound panes m s = record {
  covered = covered-apply_herd panes m;
  in_range = in_range-apply_herd panes m;
  focus_up = FocusUp-keep_focus panes m m.input.focus s.focus_up;
  ready = Ready-keep_focus panes m.input.focus m.input s.ready;
}
