-- ===== src/Tui/Dashboard/Sound.antt =====
-- internal/tui/model.go: what holds of the dashboard's model between two messages.
use mathlib.Core.Path.{subst}
use shevet.Prelude.{
  ◌-◌, ◌≤◌, ◌≡◌, refl, sym, ap, ◌∙◌, inl, inr, Bool, true, false, ◌||◌, Option, none, some, List,
  arith, length,
}
use shevet.Tui.Focus.{PaneRef, Focus}
use shevet.Tui.Focus.Passthrough.{Ready}
use shevet.Tui.Focus.Narrows.{Narrows}
use shevet.Tui.Dashboard.{
  ref_eq, PaneState, Views, find_view, put_view, is_there, Model, Server, new_model, focus_is,
}
use shevet.Tui.Dashboard.Views.{
  ref_eq_refl, ref_ne, ref_cases, find_view-put_self, find_view-put_ne, is_there-put,
}
use shevet.Tui.Dashboard.Herd.{is_live}

-- The Pane's stream did not break, and the Pane did not exit.
abbrev pub IsUp : PaneState → Type 0
IsUp st = (st.err ≡ none) × (st.view.exited ≡ false)

-- The focused Pane, if there is one, has a view that is up.
abbrev pub FocusUp : Option PaneRef → Views → Type 0
FocusUp none v = Unit {0}
FocusUp (some ref) v = (st : PaneState) × (find_view ref v ≡ some st) × IsUp st

-- There is one view for each Pane of the Herd, and no other; the selection is that of a Pane, or 0
-- without Panes; the focused Pane is up, and its host has an input queue.
pub record Sound (m : Model) : Type 0 where
  pub covered : (r : PaneRef) → is_there (find_view r m.views) ≡ is_live r m.panes
  pub in_range : m.selected ≤ length m.panes - 1
  pub focus_up : FocusUp m.input.focus m.views
  pub ready : Ready m.input.focus m.input.inputs

pub new_model-Sound : (servers : List Server) → Sound (new_model servers)
unfolding new_model find_view is_live
new_model-Sound servers = record {
  covered = λ r. refl;
  in_range = omega arith;
  focus_up = tt;
  ready = tt;
}

pub FocusUp-narrowed : (f g : Option PaneRef) (v : Views) → Narrows f g → FocusUp f v → FocusUp g v
FocusUp-narrowed f g v (inl e) h = subst (λ x. FocusUp x v) (sym e) h
FocusUp-narrowed f g v (inr e) h = subst (λ x. FocusUp x v) (sym e) tt

-- A change of the view of another Pane, or one that leaves the view up, keeps the focus up.
pub FocusUp-put :
    (f : Option PaneRef) (ref : PaneRef) (old st : PaneState) (v : Views)
    → find_view ref v ≡ some old
    → (IsUp old → IsUp st)
    → FocusUp f v
    → FocusUp f (put_view ref st v)
FocusUp-put none ref old st v found up h = tt
FocusUp-put (some r) ref old st v found up (s, e, u) = elim (ref_cases ref r) [
  | inl same ↦ (
    st,
    subst (λ x. find_view x (put_view ref st v) ≡ some st) same (find_view-put_self ref st v),
    up (subst IsUp (unique (sym (subst (λ x. find_view x v ≡ some old) same found) ∙ e)) u),
  )
  | inr other ↦ (s, find_view-put_ne ref r st v other ∙ e, u)
]
  where
    unique : some old ≡ some s → s ≡ old
    unique p = cc

-- Without a focus on the changed Pane the focus stays up.
pub FocusUp-put_other :
    (f : Option PaneRef) (ref : PaneRef) (st : PaneState) (v : Views)
    → focus_is ref f ≡ false
    → FocusUp f v
    → FocusUp f (put_view ref st v)
FocusUp-put_other none ref st v n h = tt
FocusUp-put_other (some r) ref st v n (s, e, u) = elim (ref_cases ref r) [
  | inl same ↦ absurd (differ (subst (λ x. ref_eq r x ≡ true) (sym same) (ref_eq_refl r)))
  | inr other ↦ (s, find_view-put_ne ref r st v other ∙ e, u)
]
  where
    differ : ref_eq r ref ≡ true → ⊥
    differ p = absurd (ground arith)

or_found : (a b : Bool) → (a ≡ true → b ≡ true) → (a || b) ≡ b
or_found a b h = ground arith

-- A change of a view that is there adds none.
pub covered-put :
    (ref : PaneRef) (old st : PaneState) (v : Views) (r : PaneRef)
    → find_view ref v ≡ some old
    → is_there (find_view r (put_view ref st v)) ≡ is_there (find_view r v)
covered-put ref old st v r found =
    is_there-put ref r st v ∙ or_found (ref_eq ref r) (is_there (find_view r v)) there
  where
    differ : ref_eq ref r ≡ true → ref_eq ref r ≡ false → ⊥
    differ e n = absurd (ground arith)

    there : ref_eq ref r ≡ true → is_there (find_view r v) ≡ true
    there e = elim (ref_cases ref r) [
      | inl same ↦ ap is_there (subst (λ x. find_view x v ≡ some old) same found)
      | inr other ↦ absurd (differ e (ref_ne ref r other))
    ]

-- The views are replaced by others of the same Panes, and the focus is narrowed.
pub Sound-views :
    (m : Model) (v : Views) (f : Focus)
    → Sound m
    → ((r : PaneRef) → is_there (find_view r v) ≡ is_there (find_view r m.views))
    → FocusUp f.focus v
    → Ready f.focus f.inputs
    → Sound (record m { views = v; input = f })
Sound-views m v f s same up ready = record {
  covered = λ r. same r ∙ s.covered r;
  in_range = s.in_range;
  focus_up = up;
  ready = ready;
}
