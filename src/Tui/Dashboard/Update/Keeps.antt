-- ===== src/Tui/Dashboard/Update/Keeps.antt =====
-- internal/tui/model.go: each message leaves the dashboard's model sound.
use mathlib.Core.Path.{subst}
use shevet.Prelude.{
  ℕ, suc, zero, ◌-◌, ◌≤◌, ◌≡◌, refl, sym, inl, inr, true, not, ◌||◌, Option, none, some, List, [],
  ◌∷◌, arith, if◌then◌else◌, Option-cases, if_cases, length, get_elem?, ℤ, pos, ltb_ℤ, Bytes,
}
use shevet.Prelude.Maps.{lookup}
use shevet.Grid.{Size}
use shevet.Client.{PaneUpdate, apply_update}
use shevet.Tui.Keys.{KeyCodes, KeyPress, encode_key, is_leader}
use shevet.Tui.Selection.{move_selection, move_selection-moves}
use shevet.Tui.Focus.{PaneRef, Focus, unfocus, type_into, focus_on, input_failed}
use shevet.Tui.Focus.Passthrough.{
  Ready, resize_focused, focus_on-Ready, unfocus_from-Ready, type_into-Ready, resize_focused-Ready,
  input_failed_of-Ready,
}
use shevet.Tui.Focus.Narrows.{
  Narrows, unfocus_from-none, type_into-Narrows, resize_focused-Narrows, input_failed-Narrows,
  focus_on-Narrows,
}
use shevet.Tui.Dashboard.{
  RefPane, pane_ref, PaneState, find_view, put_view, Model, Cmd, recv_next, Server, new_model, Msg,
  window_size, key_press, panes_loaded, load_failed, watch_started, pane_update, watch_failed,
  input_failed_msg, focus_is,
}
use shevet.Tui.Dashboard.Update.{
  with_input, can_focus, opening, focus_state, focus_pane, focus_selected, move_by, GridKey, quits,
  moves, refreshes, focuses, ignored, grid_action, on_grid, handle_key, stream_eq, started, updated,
  failed_watch, update, update_all,
}
use shevet.Tui.Dashboard.Herd.Keeps.{apply_herd-Sound}
use shevet.Tui.Dashboard.Sound.{
  IsUp, FocusUp, Sound, new_model-Sound, FocusUp-narrowed, FocusUp-put, FocusUp-put_other,
  covered-put, Sound-views,
}

Sound-input :
    (f : Focus) (m : Model)
    → Sound m
    → Narrows m.input.focus f.focus
    → Ready f.focus f.inputs
    → Sound (with_input f m)
Sound-input f m s n r =
    Sound-views m m.views f s (λ r. refl)
      (FocusUp-narrowed m.input.focus f.focus m.views n s.focus_up) r

Sound-select :
    (n : ℕ) (m : Model) → Sound m → n ≤ length m.panes - 1 → Sound (record m { selected = n })
Sound-select n m s h = record {
  covered = s.covered;
  in_range = h;
  focus_up = s.focus_up;
  ready = s.ready;
}

can_focus-IsUp : (st : PaneState) → can_focus st ≡ true → IsUp st
unfolding can_focus
can_focus-IsUp st h = elim (Option-cases st.err) [
  | inl e ↦ (e, ground arith)
  | inr (x, e) ↦ absurd (ground arith)
]

focus_state-Sound :
    (ref : PaneRef) (o : Option PaneState) (m : Model)
    → find_view ref m.views ≡ o
    → Sound m
    → Sound (focus_state ref o m).0
unfolding focus_state
focus_state-Sound ref none m h s = s
focus_state-Sound ref (some st) m h s =
    let size : Size = record { w = m.width; h = m.height } in
    let f = focus_on ref size m.input in
    if_cases (λ (x : Model × List Cmd). Sound x.0) (can_focus st)
      (with_input f m, opening m ref (lookup ref.host m.input.inputs)) (m, [])
      (λ up.
        Sound-views m m.views f s (λ r. refl)
          (FocusUp-narrowed (some ref) f.focus m.views (focus_on-Narrows ref size m.input)
            (st, h, can_focus-IsUp st up))
          (focus_on-Ready ref size m.input))
      (λ _. s)

focus_pane-Sound : (o : Option RefPane) (m : Model) → Sound m → Sound (focus_pane o m).0
unfolding focus_pane
focus_pane-Sound none m s = s
focus_pane-Sound (some p) m s =
    focus_state-Sound (pane_ref p) (find_view (pane_ref p) m.views) m refl s

focus_selected-Sound : (m : Model) → Sound m → Sound (focus_selected m).0
unfolding focus_selected
focus_selected-Sound m s =
    if_cases (λ (x : Model × List Cmd). Sound x.0)
      (not (ltb_ℤ (pos 0) m.width) || not (ltb_ℤ (pos 0) m.height)) (m, [])
      (focus_pane (get_elem? m.panes m.selected) m) (λ _. s)
      (λ _. focus_pane-Sound (get_elem? m.panes m.selected) m s)

move_selection-in_range :
    (w h : ℤ) (n s : ℕ) (dx dy : ℤ) → s ≤ n - 1 → move_selection w h n s dx dy ≤ n - 1
move_selection-in_range w h zero s dx dy k = unfold move_selection in k
move_selection-in_range w h (suc n) s dx dy k =
    omega (arith, (move_selection-moves w h (suc n) s dx dy (omega arith)).0)

move_by-Sound : (dx dy : ℤ) (m : Model) → Sound m → Sound (move_by dx dy m).0
unfolding move_by
move_by-Sound dx dy m s =
    Sound-select (move_selection m.width m.height (length m.panes) m.selected dx dy) m s
      (move_selection-in_range m.width m.height (length m.panes) m.selected dx dy s.in_range)

on_grid-Sound : (a : GridKey) (m : Model) → Sound m → Sound (on_grid a m).0
unfolding on_grid
on_grid-Sound quits m s = s
on_grid-Sound (moves dx dy) m s = move_by-Sound dx dy m s
on_grid-Sound refreshes m s = s
on_grid-Sound focuses m s = focus_selected-Sound m s
on_grid-Sound ignored m s = s

handle_key-Sound :
    (t : KeyCodes) (k : KeyPress) (f : Option PaneRef) (m : Model)
    → Sound m
    → Sound (handle_key t k f m).0
unfolding handle_key unfocus
handle_key-Sound t k none m s = on_grid-Sound (grid_action k) m s
handle_key-Sound t k (some ref) m s =
    let P : Model × List Cmd → Type 0 = λ x. Sound x.0 in
    let f = m.input.focus in
    if_cases P (is_leader k) (with_input (unfocus m.input) m, [])
      (with_input (type_into f (encode_key t k) m.input) m, [])
      (λ _.
        Sound-input (unfocus m.input) m s (inr (unfocus_from-none f m.input refl))
          (unfocus_from-Ready f m.input s.ready))
      (λ _.
        Sound-input (type_into f (encode_key t k) m.input) m s
          (type_into-Narrows f (encode_key t k) m.input)
          (type_into-Ready f (encode_key t k) m.input s.ready))

started-Sound :
    (ref : PaneRef) (x : ℕ) (o : Option PaneState) (m : Model)
    → find_view ref m.views ≡ o
    → Sound m
    → Sound (started ref x o m).0
unfolding started
started-Sound ref x none m h s = s
started-Sound ref x (some st) m h s =
    let st' : PaneState = record st { stream = some x } in
    Sound-views m (put_view ref st' m.views) m.input s (λ r. covered-put ref st st' m.views r h)
      (FocusUp-put m.input.focus ref st st' m.views h (λ u. u) s.focus_up) s.ready

updated-Sound :
    (ref : PaneRef) (x : ℕ) (u : PaneUpdate) (o : Option PaneState) (m : Model)
    → find_view ref m.views ≡ o
    → Sound m
    → Sound (updated ref x u o m).0
unfolding updated
updated-Sound ref x u none m h s = s
updated-Sound ref x u (some st) m h s =
    let P : Model × List Cmd → Type 0 = λ x. Sound x.0 in
    let f = m.input.focus in
    let st' : PaneState = record st { view = apply_update st.view u } in
    let views = put_view ref st' m.views in
    let Q : Focus → Type 0 = λ i. FocusUp i.focus views × Ready i.focus i.inputs in
    let gone : Focus = record m.input { focus = none } in
    let i = if focus_is ref f then gone else m.input in
    let shown : Model = record m { views = views } in
    let left : Model × List Cmd = (with_input i shown, []) in
    let stays : Model × List Cmd = (shown, recv_next ref x ∷ []) in
    if_cases P (not (stream_eq st.stream (some x))) (m, [])
      (if st'.view.exited then left else stays) (λ _. s)
      (λ _.
        if_cases P st'.view.exited left stays
          (λ _.
            let q : Q i =
              if_cases Q (focus_is ref f) gone m.input (λ _. (tt, tt))
                (λ other. (FocusUp-put_other f ref st' m.views other s.focus_up, s.ready)) in
            Sound-views m views i s (λ r. covered-put ref st st' m.views r h) q.0 q.1)
          (λ going.
            Sound-views m views m.input s (λ r. covered-put ref st st' m.views r h)
              (FocusUp-put f ref st st' m.views h (λ up. (up.0, going)) s.focus_up) s.ready))

failed_watch-Sound :
    (ref : PaneRef) (x : Option ℕ) (e : Bytes) (o : Option PaneState) (m : Model)
    → find_view ref m.views ≡ o
    → Sound m
    → Sound (failed_watch ref x e o m).0
unfolding failed_watch unfocus
failed_watch-Sound ref x e none m h s = s
failed_watch-Sound ref x e (some st) m h s =
    let P : Model × List Cmd → Type 0 = λ x. Sound x.0 in
    let f = m.input.focus in
    let st' : PaneState = record st { err = some e } in
    let views = put_view ref st' m.views in
    let Q : Focus → Type 0 = λ i. FocusUp i.focus views × Ready i.focus i.inputs in
    let left = unfocus m.input in
    let i = if focus_is ref f then left else m.input in
    let q : Q i =
      if_cases Q (focus_is ref f) left m.input
        (λ _. (
          subst (λ x. FocusUp x views) (sym (unfocus_from-none f m.input refl)) tt,
          unfocus_from-Ready f m.input s.ready,
        ))
        (λ other. (FocusUp-put_other f ref st' m.views other s.focus_up, s.ready)) in
    if_cases P (not (stream_eq st.stream x)) (m, []) (with_input i (record m { views = views }), [])
      (λ _. s) (λ _. Sound-views m views i s (λ r. covered-put ref st st' m.views r h) q.0 q.1)

update-Sound : (t : KeyCodes) (msg : Msg) (m : Model) → Sound m → Sound (update t msg m).0
unfolding update input_failed
update-Sound t (window_size w h) m s =
    let size : Size = record { w = w; h = h } in
    let s' : Sound (record m { width = w; height = h }) = record {
      covered = s.covered;
      in_range = s.in_range;
      focus_up = s.focus_up;
      ready = s.ready;
    } in
    Sound-input (resize_focused m.input.focus size m.input) (record m { width = w; height = h }) s'
      (resize_focused-Narrows m.input.focus size m.input)
      (resize_focused-Ready m.input.focus size m.input s.ready)
update-Sound t (key_press k) m s = handle_key-Sound t k m.input.focus m s
update-Sound t (panes_loaded panes) m s = apply_herd-Sound panes m s
update-Sound t (load_failed e) m s = record {
  covered = s.covered;
  in_range = s.in_range;
  focus_up = s.focus_up;
  ready = s.ready;
}
update-Sound t (watch_started ref x) m s = started-Sound ref x (find_view ref m.views) m refl s
update-Sound t (pane_update ref x u) m s = updated-Sound ref x u (find_view ref m.views) m refl s
update-Sound t (watch_failed ref x e) m s =
    failed_watch-Sound ref x e (find_view ref m.views) m refl s
update-Sound t (input_failed_msg host gen e) m s =
    Sound-input (input_failed host gen e m.input) m s (input_failed-Narrows host gen e m.input)
      (input_failed_of-Ready (lookup host m.input.inputs) host gen e m.input s.ready)

update_all-Sound :
    (t : KeyCodes) (msgs : List Msg) (m : Model) → Sound m → Sound (update_all t msgs m)
unfolding update_all
update_all-Sound t [] m s = s
update_all-Sound t (msg ∷ msgs) m s =
    update_all-Sound t msgs (update t msg m).0 (update-Sound t msg m s)

-- Whatever messages the new dashboard gets: it has one view for each Pane of its Herd and no other,
-- its selection is that of a Pane (or 0 without Panes), and a focused Pane has a view whose stream is
-- up and that has not exited, and an input queue at its host.
pub update_all-new_model-Sound :
    (t : KeyCodes) (servers : List Server) (msgs : List Msg)
    → Sound (update_all t msgs (new_model servers))
update_all-new_model-Sound t servers msgs =
    update_all-Sound t msgs (new_model servers) (new_model-Sound servers)
