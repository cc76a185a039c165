-- ===== src/Tui/Dashboard/Update/Streams.antt =====
-- internal/tui/model.go: a card shows the updates of the stream that feeds it, and of no other.
use shevet.Prelude.{
  ℕ, ◌≡◌, refl, ◌≢◌, ◌⊎◌, true, false, not, ◌&&◌, ◌||◌, Option, none, some, List, [], ◌∷◌, ◌==◌,
  if◌then◌else◌, if_cases, get_elem?, pos, ltb_ℤ, Bytes,
}
use shevet.Client.{PaneView, PaneUpdate, apply_update}
use shevet.Tui.Keys.{KeyCodes, KeyPress, encode_key, is_leader}
use shevet.Tui.Focus.{PaneRef, unfocus, type_into}
use shevet.Tui.Dashboard.{
  RefPane, pane_ref, ref_eq, PaneState, find_view, put_view, Model, Cmd, recv_next, Msg,
  window_size, key_press, panes_loaded, load_failed, watch_started, pane_update, watch_failed,
  input_failed_msg, focus_is,
}
use shevet.Tui.Dashboard.Views.{find_view-put_self, find_view-put_ne}
use shevet.Tui.Dashboard.Herd.{is_live}
use shevet.Tui.Dashboard.Update.{
  with_input, can_focus, focus_state, focus_pane, focus_selected, move_by, GridKey, quits, moves,
  refreshes, focuses, ignored, grid_action, on_grid, handle_key, stream_eq, started, updated,
  failed_watch,
}

-- Updates that a view is given in order.
unfoldable pub apply_updates : List PaneUpdate → PaneView → PaneView
apply_updates [] v = v
apply_updates (u ∷ us) v = apply_updates us (apply_update v u)

-- The updates among some messages that a stream of a Pane delivers.
unfoldable pub updates_of : PaneRef → ℕ → List Msg → List PaneUpdate
unfolding ref_eq
updates_of ref s [] = []
updates_of ref s (pane_update r x u ∷ msgs) =
    let later = updates_of ref s msgs in if ref_eq r ref && (x == s) then u ∷ later else later
updates_of ref s (msg ∷ msgs) = updates_of ref s msgs

-- The message neither starts another watch of the Pane, nor drops the Pane from the Herd, nor says
-- that its stream failed.
abbrev pub Undisturbed : PaneRef → ℕ → Msg → Type 0
Undisturbed ref s (panes_loaded panes) = is_live ref panes ≡ true
Undisturbed ref s (watch_started r x) = r ≢ ref
Undisturbed ref s (watch_failed r x e) = (r ≢ ref) ⊎ (stream_eq (some s) x ≡ false)
Undisturbed ref s (window_size w h) = Unit {0}
Undisturbed ref s (key_press k) = Unit
Undisturbed ref s (load_failed e) = Unit
Undisturbed ref s (pane_update r x u) = Unit
Undisturbed ref s (input_failed_msg host gen e) = Unit

focus_pane-views : (o : Option RefPane) (m : Model) → (focus_pane o m).0.views ≡ m.views
unfolding focus_pane
focus_pane-views none m = refl
focus_pane-views (some p) m = at_state (find_view (pane_ref p) m.views)
  where
    at_state : (o : Option PaneState) → (focus_state (pane_ref p) o m).0.views ≡ m.views
    at_state none = unfold focus_state in refl
    at_state (some st) =
        unfold focus_state in
        if_cases (λ (x : Model × List Cmd). x.0.views ≡ m.views) (can_focus st) _ (m, [])
          (λ _. refl) (λ _. refl)

on_grid-views : (a : GridKey) (m : Model) → (on_grid a m).0.views ≡ m.views
unfolding on_grid move_by focus_selected
on_grid-views quits m = refl
on_grid-views (moves dx dy) m = refl
on_grid-views refreshes m = refl
on_grid-views focuses m =
    if_cases (λ (x : Model × List Cmd). x.0.views ≡ m.views)
      (not (ltb_ℤ (pos 0) m.width) || not (ltb_ℤ (pos 0) m.height)) (m, [])
      (focus_pane (get_elem? m.panes m.selected) m) (λ _. refl)
      (λ _. focus_pane-views (get_elem? m.panes m.selected) m)
on_grid-views ignored m = refl

pub handle_key-views :
    (t : KeyCodes) (k : KeyPress) (f : Option PaneRef) (m : Model)
    → (handle_key t k f m).0.views ≡ m.views
unfolding handle_key
handle_key-views t k none m = on_grid-views (grid_action k) m
handle_key-views t k (some ref) m =
    if_cases (λ (x : Model × List Cmd). x.0.views ≡ m.views) (is_leader k)
      (with_input (unfocus m.input) m, [])
      (with_input (type_into m.input.focus (encode_key t k) m.input) m, []) (λ _. refl) (λ _. refl)

-- What one message leaves at another Pane than its own.
pub started-other :
    (r ref : PaneRef) (x : ℕ) (o : Option PaneState) (m : Model)
    → r ≢ ref
    → find_view ref (started r x o m).0.views ≡ find_view ref m.views
unfolding started
started-other r ref x none m n = refl
started-other r ref x (some st) m n =
    find_view-put_ne r ref (record st { stream = some x }) m.views n

pub updated-other :
    (r ref : PaneRef) (x : ℕ) (u : PaneUpdate) (o : Option PaneState) (m : Model)
    → r ≢ ref
    → find_view ref (updated r x u o m).0.views ≡ find_view ref m.views
unfolding updated
updated-other r ref x u none m n = refl
updated-other r ref x u (some st) m n =
    let st' : PaneState = record st { view = apply_update st.view u } in
    let kept = find_view-put_ne r ref st' m.views n in
    let shown : Model = record m { views = put_view r st' m.views } in
    let P : Model × List Cmd → Type 0 = λ x. find_view ref x.0.views ≡ find_view ref m.views in
    let i = if focus_is r m.input.focus then record m.input { focus = none } else m.input in
    let left : Model × List Cmd = (with_input i shown, []) in
    let stays : Model × List Cmd = (shown, recv_next r x ∷ []) in
    if_cases P (not (stream_eq st.stream (some x))) (m, [])
      (if st'.view.exited then left else stays) (λ _. refl)
      (λ _. if_cases P st'.view.exited left stays (λ _. kept) (λ _. kept))

pub failed_watch-other :
    (r ref : PaneRef) (x : Option ℕ) (e : Bytes) (o : Option PaneState) (m : Model)
    → r ≢ ref
    → find_view ref (failed_watch r x e o m).0.views ≡ find_view ref m.views
unfolding failed_watch
failed_watch-other r ref x e none m n = refl
failed_watch-other r ref x e (some st) m n =
    let st' : PaneState = record st { err = some e } in
    let P : Model × List Cmd → Type 0 = λ x. find_view ref x.0.views ≡ find_view ref m.views in
    let i = if focus_is r m.input.focus then unfocus m.input else m.input in
    if_cases P (not (stream_eq st.stream x)) (m, [])
      (with_input i (record m { views = put_view r st' m.views }), []) (λ _. refl)
      (λ _. find_view-put_ne r ref st' m.views n)

-- What a message of the Pane itself leaves there, if it is not from its stream.
pub failed_watch-stale :
    (ref : PaneRef) (x : Option ℕ) (e : Bytes) (st : PaneState) (m : Model)
    → stream_eq st.stream x ≡ false
    → (failed_watch ref x e (some st) m).0 ≡ m
unfolding failed_watch
failed_watch-stale ref x e st m h = rw h refl

pub updated-stale :
    (ref : PaneRef) (x : ℕ) (u : PaneUpdate) (st : PaneState) (m : Model)
    → stream_eq st.stream (some x) ≡ false
    → (updated ref x u (some st) m).0 ≡ m
unfolding updated
updated-stale ref x u st m h = rw h refl

pub updated-fed :
    (ref : PaneRef) (x : ℕ) (u : PaneUpdate) (st : PaneState) (m : Model)
    → stream_eq st.stream (some x) ≡ true
    → find_view ref (updated ref x u (some st) m).0.views
      ≡ some (record st { view = apply_update st.view u })
unfolding updated
updated-fed ref x u st m h =
    let st' : PaneState = record st { view = apply_update st.view u } in
    let shown : Model = record m { views = put_view ref st' m.views } in
    let P : Model × List Cmd → Type 0 = λ x. find_view ref x.0.views ≡ some st' in
    let i = if focus_is ref m.input.focus then record m.input { focus = none } else m.input in
    let here = find_view-put_self ref st' m.views in
    rw h (
      if_cases P st'.view.exited (with_input i shown, []) (shown, recv_next ref x ∷ []) (λ _. here)
        (λ _. here))
