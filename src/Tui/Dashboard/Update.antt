-- ===== src/Tui/Dashboard/Update.antt =====
-- internal/tui/model.go: `Update` with `handleKey` and `focusSelected`. Each takes the model, and
-- gives the next one with the commands that it returns.
pub mod Keeps
pub mod Streams
pub mod Shows
use shevet.Prelude.{
  ℕ, Bool, true, false, not, ◌&&◌, ◌||◌, Option, none, some, List, [], ◌∷◌, ltb, ◌==◌,
  if◌then◌else◌, length, get_elem?, ℤ, pos, negsuc, ltb_ℤ, Bytes, codes, bytes_eq,
}
use shevet.Prelude.Maps.{lookup}
use shevet.Client.{PaneUpdate, apply_update}
use shevet.Tui.Keys.{KeyCodes, KeyPress, encode_key, is_leader}
use shevet.Tui.Selection.{move_selection}
use shevet.Tui.Focus.{PaneRef, InputConn, Focus, unfocus, type_into, focus_on, input_failed}
use shevet.Tui.Focus.Passthrough.{resize_focused}
use shevet.Tui.Dashboard.{
  RefPane, pane_ref, PaneState, find_view, put_view, Model, Cmd, fetch_panes, recv_next,
  forward_input, quit, Msg, window_size, key_press, panes_loaded, load_failed, watch_started,
  pane_update, watch_failed, input_failed_msg, focus_is,
}
use shevet.Tui.Dashboard.Herd.{apply_herd}

-- The input part of a model is replaced.
abbrev pub with_input : Focus → Model → Model
with_input f m = record m { input = f }

-- `sized`, and the guards of `focusSelected` on a Pane's state.
pub can_focus : PaneState → Bool
can_focus st = elim st.err [ none ↦ not st.view.exited && ltb 0 st.view.grid.w | some e ↦ false ]

-- The command that opens the input stream, if the host has no queue.
opening : Model → PaneRef → Option InputConn → List Cmd
unfolding lookup
opening m ref none = forward_input (lookup ref.host m.conns) ref.host m.input.next_gen ∷ []
opening m ref (some c) = []

pub focus_state : PaneRef → Option PaneState → Model → Model × List Cmd
unfolding can_focus opening focus_on lookup
focus_state ref none m = (m, [])
focus_state ref (some st) m =
    if can_focus st
    then (
      with_input (focus_on ref (record { w = m.width; h = m.height }) m.input) m,
      opening m ref (lookup ref.host m.input.inputs),
    )
    else (m, [])

pub focus_pane : Option RefPane → Model → Model × List Cmd
unfolding focus_state find_view
focus_pane none m = (m, [])
focus_pane (some p) m = focus_state (pane_ref p) (find_view (pane_ref p) m.views) m

-- `focusSelected`
pub focus_selected : Model → Model × List Cmd
unfolding focus_pane
focus_selected m =
    if not (ltb_ℤ (pos 0) m.width) || not (ltb_ℤ (pos 0) m.height)
    then (m, [])
    else focus_pane (get_elem? m.panes m.selected) m

pub move_by : ℤ → ℤ → Model → Model × List Cmd
unfolding move_selection
move_by dx dy m =
    (record m { selected = move_selection m.width m.height (length m.panes) m.selected dx dy }, [])

-- `handleKey` on the grid, by the key's name.
abbrev named : KeyPress → Bytes → Bytes → Bool
named k a b = bytes_eq k.name a || bytes_eq k.name b

pub data GridKey : Type 0 where
  quits : GridKey
  moves : ℤ → ℤ → GridKey
  refreshes : GridKey
  focuses : GridKey
  ignored : GridKey

pub grid_action : KeyPress → GridKey
unfolding bytes_eq
grid_action k =
    if named k (codes "q") (codes "ctrl+c")
    then quits
    else if named k (codes "left") (codes "h")
    then moves (negsuc 0) (pos 0)
    else if named k (codes "right") (codes "l")
    then moves (pos 1) (pos 0)
    else if named k (codes "up") (codes "k")
    then moves (pos 0) (negsuc 0)
    else if named k (codes "down") (codes "j")
    then moves (pos 0) (pos 1)
    else if bytes_eq k.name (codes "r")
    then refreshes
    else if named k (codes "enter") (codes "i")
    then focuses
    else ignored

pub on_grid : GridKey → Model → Model × List Cmd
unfolding move_by focus_selected
on_grid quits m = (m, quit ∷ [])
on_grid (moves dx dy) m = move_by dx dy m
on_grid refreshes m = (m, fetch_panes m.servers ∷ [])
on_grid focuses m = focus_selected m
on_grid ignored m = (m, [])

-- `handleKey`; `focused` is whether there is a focus.
pub handle_key : KeyCodes → KeyPress → Option PaneRef → Model → Model × List Cmd
unfolding on_grid grid_action is_leader unfocus type_into encode_key
handle_key t k none m = on_grid (grid_action k) m
handle_key t k (some ref) m =
    if is_leader k
    then (with_input (unfocus m.input) m, [])
    else (with_input (type_into m.input.focus (encode_key t k) m.input) m, [])

-- Go's `==` on streams.
pub stream_eq : Option ℕ → Option ℕ → Bool
stream_eq none none = true
stream_eq none (some b) = false
stream_eq (some a) none = false
stream_eq (some a) (some b) = a == b

pub started : PaneRef → ℕ → Option PaneState → Model → Model × List Cmd
unfolding put_view
started ref s none m = (m, [])
started ref s (some st) m = (
  record m { views = put_view ref (record st { stream = some s }) m.views },
  recv_next ref s ∷ [],
)

abbrev dropped_from : PaneRef → Focus → Focus
dropped_from ref f = if focus_is ref f.focus then record f { focus = none } else f

-- An update is applied if it comes from the stream that feeds the view; a view that has exited gives
-- up the focus, and its stream is not asked for more.
pub updated : PaneRef → ℕ → PaneUpdate → Option PaneState → Model → Model × List Cmd
unfolding stream_eq put_view apply_update
updated ref s u none m = (m, [])
updated ref s u (some st) m =
    let view = apply_update st.view u in
    let shown = record m { views = put_view ref (record st { view = view }) m.views } in
    if not (stream_eq st.stream (some s))
    then (m, [])
    else if view.exited
    then (with_input (dropped_from ref m.input) shown, [])
    else (shown, recv_next ref s ∷ [])

pub failed_watch : PaneRef → Option ℕ → Bytes → Option PaneState → Model → Model × List Cmd
unfolding stream_eq put_view unfocus
failed_watch ref s e none m = (m, [])
failed_watch ref s e (some st) m =
    let broken = record m { views = put_view ref (record st { err = some e }) m.views } in
    if not (stream_eq st.stream s)
    then (m, [])
    else (with_input (if focus_is ref m.input.focus then unfocus m.input else m.input) broken, [])

-- `Update`
pub update : KeyCodes → Msg → Model → Model × List Cmd
unfolding resize_focused handle_key apply_herd started updated failed_watch input_failed find_view
update t (window_size w h) m = (
  with_input (resize_focused m.input.focus (record { w = w; h = h }) m.input)
      (record m { width = w; height = h }),
  [],
)
update t (key_press k) m = handle_key t k m.input.focus m
update t (panes_loaded panes) m = apply_herd panes m
update t (load_failed e) m = (record m { err = some e; loaded = true }, [])
update t (watch_started ref s) m = started ref s (find_view ref m.views) m
update t (pane_update ref s u) m = updated ref s u (find_view ref m.views) m
update t (watch_failed ref s e) m = failed_watch ref s e (find_view ref m.views) m
update t (input_failed_msg host gen e) m = (with_input (input_failed host gen e m.input) m, [])

-- The model after some messages; the commands go to the runtime.
pub update_all : KeyCodes → List Msg → Model → Model
unfolding update
update_all t [] m = m
update_all t (msg ∷ msgs) m = update_all t msgs (update t msg m).0
