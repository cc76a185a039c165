-- ===== src/Tui/Dashboard/Herd/Follow.antt =====
-- internal/tui/model.go: where the selection of the dashboard stands after `applyHerd`.
use shevet.Prelude.{
  ℕ, suc, zero, ◌+◌, ◌≤◌, ◌≡◌, refl, ap, ◌∙◌, inl, inr, Bool, true, false, ◌||◌, some, List, [],
  ◌∷◌, arith, if◌then◌else◌, Bool-cases, if_cases, length, get_elem?,
}
use shevet.Tui.Focus.{PaneRef}
use shevet.Tui.Dashboard.{RefPane, pane_ref, ref_eq, Model}
use shevet.Tui.Dashboard.Views.{ref_eq→≡}
use shevet.Tui.Dashboard.Herd.{is_live, select_loop, selected_ref, apply_herd}

-- The selection is that of a Pane of the list, at its index from `i`.
abbrev Found : PaneRef → ℕ → List RefPane → ℕ → Type 0
Found was i ps s =
    (j : ℕ) × (p : RefPane) × (s ≡ i + j) × (get_elem? ps j ≡ some p) × (pane_ref p ≡ was)

Found-cons :
    (was : PaneRef) (i : ℕ) (p : RefPane) (ps : List RefPane) (s : ℕ)
    → Found was (i + 1) ps s
    → Found was i (p ∷ ps) s
Found-cons was i p ps s (j, q, a, b, c) = (suc j, q, omega (arith, a), b, c)

select_loop-absent :
    (was : PaneRef) (i : ℕ) (ps : List RefPane) (s : ℕ)
    → is_live was ps ≡ false
    → select_loop was i ps s ≡ s
unfolding select_loop is_live
select_loop-absent was i [] s h = refl
select_loop-absent was i (p ∷ ps) s h =
    let (a, b) = neither (ref_eq (pane_ref p) was) (is_live was ps) h in
    rw a (select_loop-absent was (i + 1) ps s b)
  where
    neither : (x y : Bool) → (x || y) ≡ false → (x ≡ false) × (y ≡ false)
    neither x y e = ground arith

select_loop-Found :
    (was : PaneRef) (i : ℕ) (ps : List RefPane) (s : ℕ)
    → is_live was ps ≡ true
    → Found was i ps (select_loop was i ps s)
unfolding select_loop is_live
select_loop-Found was i [] s h = absurd (ground arith)
select_loop-Found was i (p ∷ ps) s h = elim (Bool-cases (is_live was ps)) [
  | inl later ↦
      let s' = if ref_eq (pane_ref p) was then i else s in
      Found-cons was i p ps (select_loop was (i + 1) ps s')
        (select_loop-Found was (i + 1) ps s' later)
  | inr last ↦
      let here : ref_eq (pane_ref p) was ≡ true =
        first (ref_eq (pane_ref p) was) (is_live was ps) h last in
      (
        zero,
        p,
        rw here (select_loop-absent was (i + 1) ps i last ∙ omega arith),
        refl,
        ref_eq→≡ (pane_ref p) was here,
      )
]
  where
    first : (x y : Bool) → (x || y) ≡ true → y ≡ false → x ≡ true
    first x y e k = ground arith

-- The selection follows its Pane into the fetched Herd, if that holds the Pane, and is the first
-- card's if it does not.
pub apply_herd-follows :
    (panes : List RefPane) (m : Model)
    → (is_live (selected_ref m) panes ≡ true
        → (p : RefPane) × (get_elem? panes (apply_herd panes m).0.selected ≡ some p)
          × (pane_ref p ≡ selected_ref m))
      × (is_live (selected_ref m) panes ≡ false → (apply_herd panes m).0.selected ≡ 0)
unfolding apply_herd
apply_herd-follows panes m = (
  λ live.
      let (j, p, at, there, same) = select_loop-Found (selected_ref m) 0 panes 0 live in
      (p, ap (get_elem? panes) (at ∙ from_zero j) ∙ there, same),
  λ gone. select_loop-absent (selected_ref m) 0 panes 0 gone,
)
  where
    from_zero : (j : ℕ) → 0 + j ≡ j
    from_zero j = omega arith

-- The loop's selection is that before it, or an index of the loop.
pub select_loop-bound :
    (was : PaneRef) (i n : ℕ) (ps : List RefPane) (s : ℕ)
    → s ≤ n
    → i + length ps ≤ n + 1
    → select_loop was i ps s ≤ n
unfolding select_loop
select_loop-bound was i n [] s h k = h
select_loop-bound was i n (p ∷ ps) s h k =
    select_loop-bound was (i + 1) n ps (if ref_eq (pane_ref p) was then i else s)
      (if_cases (λ x. x ≤ n) (ref_eq (pane_ref p) was) i s (λ _. omega arith) (λ _. h))
      (omega arith)
