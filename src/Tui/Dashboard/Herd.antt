-- ===== src/Tui/Dashboard/Herd.antt =====
-- internal/tui/model.go: `applyHerd`, by which a fetched Herd becomes the dashboard's.
pub mod Covered
pub mod Follow
pub mod Keeps
use shevet.Prelude.{
  ℕ, ◌+◌, Bool, true, false, ◌||◌, Option, none, some, List, [], ◌∷◌, ◌++◌, if◌then◌else◌,
  get_elem?,
}
use shevet.Prelude.Maps.{Entries, lookup}
use shevet.Client.{new_view}
use shevet.Tui.Focus.{PaneRef}
use shevet.Tui.Dashboard.{
  RefPane, pane_ref, ref_eq, PaneState, Views, find_view, put_view, keep_views, Model, Cmd,
  watch_pane,
}

-- The map `live`: the references of the fetched Panes.
unfoldable pub is_live : PaneRef → List RefPane → Bool
unfolding ref_eq
is_live r [] = false
is_live r (p ∷ ps) = ref_eq (pane_ref p) r || is_live r ps

-- A Pane that is not watched, or whose stream broke, starts over with a new view and a watch.
pub fresh_state : PaneState
fresh_state = record { view = new_view; stream = none; err = none }

pub watch_again : Entries ℕ → RefPane → Views × List Cmd → Views × List Cmd
unfolding fresh_state
watch_again conns p (views, cmds) = (
  put_view (pane_ref p) fresh_state views,
  cmds ++ watch_pane (lookup p.host conns) (pane_ref p) ∷ [],
)

pub rewatch : Entries ℕ → RefPane → Option PaneState → Views × List Cmd → Views × List Cmd
unfolding watch_again
rewatch conns p none vc = watch_again conns p vc
rewatch conns p (some st) vc = elim st.err [ none ↦ vc | some e ↦ watch_again conns p vc ]

-- The loop over the fetched Panes, from index `i`: the selection, the views and the commands.
pub select_loop : PaneRef → ℕ → List RefPane → ℕ → ℕ
unfolding ref_eq
select_loop was i [] selected = selected
select_loop was i (p ∷ ps) selected =
    select_loop was (i + 1) ps (if ref_eq (pane_ref p) was then i else selected)

pub watch_loop : Entries ℕ → List RefPane → Views × List Cmd → Views × List Cmd
unfolding rewatch find_view
watch_loop conns [] vc = vc
watch_loop conns (p ∷ ps) vc =
    watch_loop conns ps (rewatch conns p (find_view (pane_ref p) vc.0) vc)

-- The reference of the selected Pane, or the zero `PaneRef`.
abbrev pub ref_of : Option RefPane → PaneRef
ref_of none = record { host = []; id = [] }
ref_of (some p) = pane_ref p

abbrev pub selected_ref : Model → PaneRef
selected_ref m = ref_of (get_elem? m.panes m.selected)

pub keep_focus : List RefPane → Option PaneRef → Option PaneRef
unfolding is_live
keep_focus panes none = none
keep_focus panes (some ref) = if is_live ref panes then some ref else none

-- `applyHerd`
unfoldable pub apply_herd : List RefPane → Model → Model × List Cmd
unfolding select_loop watch_loop keep_views is_live keep_focus
apply_herd panes m =
    let (views, cmds) = watch_loop m.conns panes (m.views, []) in
    (
      record m {
        panes = panes;
        loaded = true;
        err = none;
        selected = select_loop (selected_ref m) 0 panes 0;
        views = keep_views (λ r. is_live r panes) views;
        input = record (m.input) { focus = keep_focus panes m.input.focus };
      },
      cmds,
    )
