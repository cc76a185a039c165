-- ===== src/Tui/Dashboard/Herd/Covered.antt =====
-- internal/tui/model.go: what `applyHerd` does to the views.
use mathlib.Core.Path.{subst}
use shevet.Prelude.{
  ℕ, ◌≡◌, refl, sym, ap, ◌∙◌, inl, inr, Bool, true, ◌||◌, Option, none, some, List, [], ◌∷◌, arith,
  Bool-cases, Option-cases, Bytes,
}
use shevet.Prelude.Maps.{Entries}
use shevet.Tui.Focus.{PaneRef}
use shevet.Tui.Dashboard.{
  RefPane, pane_ref, ref_eq, PaneState, Views, find_view, is_there, Model, Cmd,
}
use shevet.Tui.Dashboard.Herd.{is_live, fresh_state, watch_again, rewatch, watch_loop, apply_herd}
use shevet.Tui.Dashboard.Views.{
  ref_eq_refl, ref_ne, ref_cases, find_view-put_ne, find_view-keep_views, find_view-dropped,
  is_there-put,
}

is_there-watch_again :
    (conns : Entries ℕ) (p : RefPane) (r : PaneRef) (vc : Views × List Cmd)
    → is_there (find_view r (watch_again conns p vc).0)
      ≡ (ref_eq (pane_ref p) r || is_there (find_view r vc.0))
unfolding watch_again
is_there-watch_again conns p r vc = is_there-put (pane_ref p) r fresh_state vc.0

found_or :
    (p : RefPane) (r : PaneRef) (st : PaneState) (v : Views)
    → find_view (pane_ref p) v ≡ some st
    → is_there (find_view r v) ≡ (ref_eq (pane_ref p) r || is_there (find_view r v))
found_or p r st v h = elim (ref_cases (pane_ref p) r) [
  | inl same ↦
      let e = ap is_there (subst (λ x. find_view x v ≡ some st) same h) in
      rw (subst (λ x. ref_eq (pane_ref p) x ≡ true) same (ref_eq_refl (pane_ref p))) e
  | inr other ↦ rw (ref_ne (pane_ref p) r other) refl
]

is_there-rewatch :
    (conns : Entries ℕ) (p : RefPane) (r : PaneRef) (vc : Views × List Cmd) (o : Option PaneState)
    → find_view (pane_ref p) vc.0 ≡ o
    → is_there (find_view r (rewatch conns p o vc).0)
      ≡ (ref_eq (pane_ref p) r || is_there (find_view r vc.0))
unfolding rewatch
is_there-rewatch conns p r vc none h = is_there-watch_again conns p r vc
is_there-rewatch conns p r vc (some st) h = elim (Option-cases st.err) [
  | inl e ↦ rw e (found_or p r st vc.0 h)
  | inr (x, e) ↦ rw e (is_there-watch_again conns p r vc)
]

or_swap : (a b c : Bool) → (b || (a || c)) ≡ ((a || b) || c)
or_swap a b c = ground arith

-- Every live Pane is watched after the loop, and no other that was not watched before.
pub is_there-watch_loop :
    (conns : Entries ℕ) (ps : List RefPane) (r : PaneRef) (vc : Views × List Cmd)
    → is_there (find_view r (watch_loop conns ps vc).0)
      ≡ (is_live r ps || is_there (find_view r vc.0))
unfolding watch_loop is_live
is_there-watch_loop conns [] r vc = refl
is_there-watch_loop conns (p ∷ ps) r vc =
    let o = find_view (pane_ref p) vc.0 in
    is_there-watch_loop conns ps r (rewatch conns p o vc)
    ∙ (ap (λ b. is_live r ps || b) (is_there-rewatch conns p r vc o refl)
        ∙ or_swap (ref_eq (pane_ref p) r) (is_live r ps) (is_there (find_view r vc.0)))

-- After `applyHerd` the views are those of the fetched Panes.
pub covered-apply_herd :
    (panes : List RefPane) (m : Model) (r : PaneRef)
    → is_there (find_view r (apply_herd panes m).0.views) ≡ is_live r panes
unfolding apply_herd
covered-apply_herd panes m r = elim (Bool-cases (is_live r panes)) [
  | inl live ↦
      ap is_there (
        find_view-keep_views (λ r. is_live r panes) r (watch_loop m.conns panes (m.views, [])).0
          live)
      ∙ (is_there-watch_loop m.conns panes r (m.views, []) ∙ rw live refl)
  | inr gone ↦
      ap is_there
        (find_view-dropped (λ r. is_live r panes) r (watch_loop m.conns panes (m.views, [])).0 gone)
      ∙ sym gone
]

-- A view whose stream is up stays as it is in the loop.
find-rewatch :
    (conns : Entries ℕ) (p : RefPane) (r : PaneRef) (st : PaneState) (vc : Views × List Cmd)
    (o : Option PaneState)
    → find_view (pane_ref p) vc.0 ≡ o
    → find_view r vc.0 ≡ some st
    → st.err ≡ none
    → find_view r (rewatch conns p o vc).0 ≡ some st
unfolding rewatch watch_again
find-rewatch conns p r st vc none h f e =
    find_view-put_ne (pane_ref p) r fresh_state vc.0
      (λ same. differ (sym (subst (λ x. find_view x vc.0 ≡ none) same h) ∙ f))
    ∙ f
  where
    differ : none ≡ some st → ⊥
    differ q = absurd (ground arith)
find-rewatch conns p r st vc (some old) h f e = elim (Option-cases old.err) [
  | inl fine ↦ rw fine f
  | inr (x, broken) ↦ rw broken (
      find_view-put_ne (pane_ref p) r fresh_state vc.0
        (λ same. differ x broken (sym (subst (λ y. find_view y vc.0 ≡ some old) same h) ∙ f))
      ∙ f)
]
  where
    differ : (x : Bytes) → old.err ≡ some x → some old ≡ some st → ⊥
    differ x b q = absurd (ground arith)

pub find-watch_loop :
    (conns : Entries ℕ) (ps : List RefPane) (r : PaneRef) (st : PaneState) (vc : Views × List Cmd)
    → find_view r vc.0 ≡ some st
    → st.err ≡ none
    → find_view r (watch_loop conns ps vc).0 ≡ some st
unfolding watch_loop
find-watch_loop conns [] r st vc f e = f
find-watch_loop conns (p ∷ ps) r st vc f e =
    find-watch_loop conns ps r st (rewatch conns p (find_view (pane_ref p) vc.0) vc)
      (find-rewatch conns p r st vc (find_view (pane_ref p) vc.0) refl f e) e

-- The view of a live Pane is as it was before, if its stream did not break.
pub find_view-apply_herd :
    (panes : List RefPane) (m : Model) (r : PaneRef) (st : PaneState)
    → is_live r panes ≡ true
    → find_view r m.views ≡ some st
    → st.err ≡ none
    → find_view r (apply_herd panes m).0.views ≡ some st
unfolding apply_herd
find_view-apply_herd panes m r st live f e =
    find_view-keep_views (λ r. is_live r panes) r (watch_loop m.conns panes (m.views, [])).0 live
    ∙ find-watch_loop m.conns panes r st (m.views, []) f e
