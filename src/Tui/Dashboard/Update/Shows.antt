-- ===== src/Tui/Dashboard/Update/Shows.antt =====
-- internal/tui/model.go: over any messages that leave a Pane's stream alone, its card shows the
-- updates of that stream.
use mathlib.Core.Path.{subst}
use shevet.Prelude.{
  ℕ, ◌≡◌, refl, sym, ap, ◌∙◌, ◌≢◌, ◌⊎◌, inl, inr, true, false, ◌&&◌, Option, none, some, List, [],
  ◌∷◌, arith, ◌==◌, Bool-cases, All, Bytes,
}
use shevet.Client.{PaneView, PaneUpdate, apply_update}
use shevet.Tui.Keys.{KeyCodes}
use shevet.Tui.Focus.{PaneRef}
use shevet.Tui.Dashboard.{
  PaneState, ref_eq, find_view, Model, Msg, window_size, key_press, panes_loaded, load_failed,
  watch_started, pane_update, watch_failed, input_failed_msg,
}
use shevet.Tui.Dashboard.Views.{ref_eq_refl, ref_ne, ref_cases}
use shevet.Tui.Dashboard.Herd.Covered.{find_view-apply_herd}
use shevet.Tui.Dashboard.Update.{stream_eq, updated, failed_watch, update, update_all}
use shevet.Tui.Dashboard.Update.Streams.{
  apply_updates, updates_of, Undisturbed, handle_key-views, started-other, updated-other,
  failed_watch-other, failed_watch-stale, updated-stale, updated-fed,
}

-- The Pane has this state, and is fed by this stream, which is up.
record Fed (ref : PaneRef) (s : ℕ) (st : PaneState) (m : Model) : Type 0 where
  found : find_view ref m.views ≡ some st
  fed_by : st.stream ≡ some s
  fine : st.err ≡ none

Fed-same :
    (ref : PaneRef) (s : ℕ) (st : PaneState) (m n : Model)
    → find_view ref n.views ≡ find_view ref m.views
    → Fed ref s st m
    → Fed ref s st n
Fed-same ref s st m n e f = record { found = e ∙ f.found; fed_by = f.fed_by; fine = f.fine }

-- A message of the Pane's own.
update-fresh :
    (t : KeyCodes) (ref : PaneRef) (s x : ℕ) (u : PaneUpdate) (st : PaneState) (m : Model)
    → Fed ref s st m
    → (x == s) ≡ true
    → Fed ref s (record st { view = apply_update st.view u }) (update t (pane_update ref x u) m).0
unfolding update
update-fresh t ref s x u st m f e = record {
  found =
      ap (λ o. find_view ref (updated ref x u o m).0.views) f.found ∙ updated-fed ref x u st m same;
  fed_by = f.fed_by;
  fine = f.fine;
}
  where
    same : stream_eq st.stream (some x) ≡ true
    same = rw f.fed_by (unfold stream_eq in ground arith)

update-stale :
    (t : KeyCodes) (ref : PaneRef) (s x : ℕ) (u : PaneUpdate) (st : PaneState) (m : Model)
    → Fed ref s st m
    → (x == s) ≡ false
    → Fed ref s st (update t (pane_update ref x u) m).0
unfolding update
update-stale t ref s x u st m f e =
    Fed-same ref s st m (updated ref x u (find_view ref m.views) m).0
      (ap (λ o. find_view ref (updated ref x u o m).0.views) f.found
        ∙ ap (λ (n : Model). find_view ref n.views) (updated-stale ref x u st m other))
      f
  where
    other : stream_eq st.stream (some x) ≡ false
    other = rw f.fed_by (unfold stream_eq in ground arith)

update-failed :
    (t : KeyCodes) (ref r : PaneRef) (s : ℕ) (x : Option ℕ) (e : Bytes) (st : PaneState) (m : Model)
    → Fed ref s st m
    → (r ≢ ref) ⊎ (stream_eq (some s) x ≡ false)
    → Fed ref s st (update t (watch_failed r x e) m).0
unfolding update
update-failed t ref r s x e st m f h =
    Fed-same ref s st m (failed_watch r x e (find_view r m.views) m).0 (kept h (ref_cases ref r)) f
  where
    stale : stream_eq (some s) x ≡ false → stream_eq st.stream x ≡ false
    stale p = rw f.fed_by p

    own : stream_eq (some s) x ≡ false → (failed_watch ref x e (find_view ref m.views) m).0 ≡ m
    own p =
        ap (λ o. (failed_watch ref x e o m).0) f.found ∙ failed_watch-stale ref x e st m (stale p)

    kept :
        (r ≢ ref) ⊎ (stream_eq (some s) x ≡ false)
        → (ref ≡ r) ⊎ (ref ≢ r)
        → find_view ref (failed_watch r x e (find_view r m.views) m).0.views ≡ find_view ref m.views
    kept (inl n) c = failed_watch-other r ref x e (find_view r m.views) m n
    kept (inr p) (inr n) = failed_watch-other r ref x e (find_view r m.views) m (λ q. n (sym q))
    kept (inr p) (inl same) =
        subst
          (λ r.
            find_view ref (failed_watch r x e (find_view r m.views) m).0.views
            ≡ find_view ref m.views)
          same (ap (λ (n : Model). find_view ref n.views) (own p))

-- The state that the Pane has after one message.
after : PaneRef → ℕ → Msg → PaneState → PaneState
unfolding apply_updates updates_of
after ref s msg st = record st { view = apply_updates (updates_of ref s (msg ∷ [])) st.view }

update-Fed :
    (t : KeyCodes) (ref : PaneRef) (s : ℕ) (msg : Msg) (st : PaneState) (m : Model)
    → Fed ref s st m
    → Undisturbed ref s msg
    → Fed ref s (after ref s msg st) (update t msg m).0
unfolding after
update-Fed t ref s (window_size w h) st m f h' = unfold update in Fed-same ref s st m _ refl f
update-Fed t ref s (key_press k) st m f h =
    unfold update in
    Fed-same ref s st m _ (ap (find_view ref) (handle_key-views t k m.input.focus m)) f
update-Fed t ref s (panes_loaded panes) st m f h =
    unfold update in
    record {
      found = find_view-apply_herd panes m ref st h f.found f.fine;
      fed_by = f.fed_by;
      fine = f.fine;
    }
update-Fed t ref s (load_failed e) st m f h = unfold update in Fed-same ref s st m _ refl f
update-Fed t ref s (watch_started r x) st m f h =
    unfold update in Fed-same ref s st m _ (started-other r ref x (find_view r m.views) m h) f
update-Fed t ref s (pane_update r x u) st m f h = elim (ref_cases ref r) [
  | inl same ↦
      subst (λ r. Fed ref s (after ref s (pane_update r x u) st) (update t (pane_update r x u) m).0)
        same own
  | inr n ↦ rw (ref_ne r ref (λ q. n (sym q))) (
      unfold update in
      Fed-same ref s st m _ (updated-other r ref x u (find_view r m.views) m (λ q. n (sym q))) f)
]
  where
    own : Fed ref s (after ref s (pane_update ref x u) st) (update t (pane_update ref x u) m).0
    own = elim (Bool-cases (x == s)) [
      | inl e ↦ rw (ref_eq_refl ref, e) (update-fresh t ref s x u st m f e)
      | inr e ↦ rw (ref_eq_refl ref, e) (update-stale t ref s x u st m f e)
    ]
update-Fed t ref s (watch_failed r x e) st m f h = update-failed t ref r s x e st m f h
update-Fed t ref s (input_failed_msg host gen e) st m f h =
    unfold update in Fed-same ref s st m _ refl f

later_updates :
    (ref : PaneRef) (s : ℕ) (msg : Msg) (msgs : List Msg) (v : PaneView)
    → apply_updates (updates_of ref s msgs) (apply_updates (updates_of ref s (msg ∷ [])) v)
      ≡ apply_updates (updates_of ref s (msg ∷ msgs)) v
unfolding updates_of apply_updates
later_updates ref s (window_size w h) msgs v = refl
later_updates ref s (key_press k) msgs v = refl
later_updates ref s (panes_loaded panes) msgs v = refl
later_updates ref s (load_failed e) msgs v = refl
later_updates ref s (watch_started r x) msgs v = refl
later_updates ref s (watch_failed r x e) msgs v = refl
later_updates ref s (input_failed_msg host gen e) msgs v = refl
later_updates ref s (pane_update r x u) msgs v = elim (Bool-cases (ref_eq r ref && (x == s))) [
  | inl e ↦ rw e refl
  | inr e ↦ rw e refl
]

update_all-Fed :
    (t : KeyCodes) (ref : PaneRef) (s : ℕ) (msgs : List Msg) (st : PaneState) (m : Model)
    → Fed ref s st m
    → All (Undisturbed ref s) msgs
    → find_view ref (update_all t msgs m).views
      ≡ some (record st { view = apply_updates (updates_of ref s msgs) st.view })
unfolding update_all updates_of apply_updates after
update_all-Fed t ref s [] st m f h = f.found
update_all-Fed t ref s (msg ∷ msgs) st m f h =
    update_all-Fed t ref s msgs (after ref s msg st) (update t msg m).0
      (update-Fed t ref s msg st m f h.0) h.1
    ∙ ap (λ v. some (record st { view = v })) (later_updates ref s msg msgs st.view)

-- A Pane's view that a stream feeds, and that did not break, has after any messages exactly the
-- updates of that stream applied in their order, if no message starts another watch of the Pane,
-- drops it from the Herd, or says that its stream failed.
pub update_all-shows :
    (t : KeyCodes) (ref : PaneRef) (s : ℕ) (msgs : List Msg) (st : PaneState) (m : Model)
    → find_view ref m.views ≡ some st
    → st.stream ≡ some s
    → st.err ≡ none
    → All (Undisturbed ref s) msgs
    → find_view ref (update_all t msgs m).views
      ≡ some (record st { view = apply_updates (updates_of ref s msgs) st.view })
update_all-shows t ref s msgs st m f b e =
    update_all-Fed t ref s msgs st m (record { found = f; fed_by = b; fine = e })
