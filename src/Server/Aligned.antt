-- ===== src/Server/Aligned.antt =====
-- internal/server/watcher.go: what a reconcile that succeeds leaves is what tmux listed.
use mathlib.Core.Path.{subst}
use shevet.Prelude.{
  ℕ, ◌≡◌, sym, ◌∙◌, inl, inr, true, false, Option, none, some, List, [], ◌∷◌, ◌++◌, arith, if_cases,
  ℤ, pos, ltb_ℤ, eq_of_parts, Bytes, codes,
}
use shevet.Prelude.Maps.{lookup, insert, bytes_cases, lookup-insert_self, lookup-insert_ne}
use shevet.Server.Hub.{WatchedPane, Hub, new_pane}
use shevet.Server.Watcher.{
  Answer, ok, failed, stopped, Ctl, Watcher, put, seeded, after_capture, seed, scan_pair,
}
use shevet.Server.Reconcile.{
  PaneInfo, check_geometry, check_parts, four_parts, max_pane_dim, parse_pane_line, resized,
  same_size, align,
}
use shevet.Wire.{Pane}

-- A length that `parsePaneLine` accepts.
abbrev pub Fits : ℤ → Type 0
Fits n = (ltb_ℤ (pos 0) n ≡ true) × (ltb_ℤ max_pane_dim n ≡ false)

abbrev pub pane_of : PaneInfo → Pane
pane_of info = record { id = info.id; title = info.title }

-- A pane that is in the hub, with a size in bounds.
abbrev pub Present : Hub → Bytes → Type 0
Present hub id = (wp : WatchedPane) × (lookup id hub ≡ some wp) × Fits wp.width × Fits wp.height

-- The lines and what each of them says.
abbrev pub Parses : List Bytes → List PaneInfo → Type 0
Parses [] [] = Unit {0}
Parses [] (i ∷ is) = ⊥
Parses (l ∷ ls) [] = ⊥
Parses (l ∷ ls) (i ∷ is) = (parse_pane_line l ≡ ok i) × Parses ls is

abbrev pub FitsInfo : Answer PaneInfo → Type 0
FitsInfo (ok info) = Fits info.width × Fits info.height
FitsInfo (failed e) = Unit {0}
FitsInfo stopped = Unit {0}

check_geometry-FitsInfo :
    (line id title : Bytes) (o : Option ℤ × Option ℤ) → FitsInfo (check_geometry line id title o)
unfolding check_geometry
check_geometry-FitsInfo line id title (some w, some h) = ground arith
check_geometry-FitsInfo line id title (some w, none) = tt
check_geometry-FitsInfo line id title (none, h) = tt

check_parts-FitsInfo :
    (line : Bytes) (o : Option (Bytes × Bytes × Bytes × Bytes)) → FitsInfo (check_parts line o)
unfolding check_parts
check_parts-FitsInfo line none = tt
check_parts-FitsInfo line (some (id, w, h, title)) =
    check_geometry-FitsInfo line id title (scan_pair (w ++ (codes " " ++ h)))

pub parse_pane_line-FitsInfo : (line : Bytes) → FitsInfo (parse_pane_line line)
unfolding parse_pane_line
parse_pane_line-FitsInfo line = check_parts-FitsInfo line (four_parts line)

insert-Present_self :
    (id : Bytes) (wp : WatchedPane) (hub : Hub)
    → Fits wp.width
    → Fits wp.height
    → Present (insert id wp hub) id
insert-Present_self id wp hub a b = (wp, lookup-insert_self id wp hub, a, b)

insert-Present :
    (id : Bytes) (wp : WatchedPane) (hub : Hub) (j : Bytes)
    → Fits wp.width
    → Fits wp.height
    → Present hub j
    → Present (insert id wp hub) j
insert-Present id wp hub j a b (vp, found, c, d) = elim (bytes_cases id j) [
  | inl same ↦ subst (Present (insert id wp hub)) same (insert-Present_self id wp hub a b)
  | inr other ↦ (vp, lookup-insert_ne id j wp hub other ∙ found, c, d)
]

same_size-≡ :
    (wp : WatchedPane) (info : PaneInfo)
    → same_size wp info ≡ true
    → (wp.width ≡ info.width) × (wp.height ≡ info.height)
same_size-≡ wp info h = (
  eq_of_parts wp.width info.width (ground arith),
  eq_of_parts wp.height info.height (ground arith),
)

module _ {W : Type 0} (ctl : Ctl W) where
  -- What a step that may fail has done when it has not: the pane is there, and those before are.
  abbrev pub Adds : Bytes → Watcher W → Answer WatchedPane × Watcher W → Type 0
  Adds id w (ok wp, w') = Present w'.hub id × ((j : Bytes) → Present w.hub j → Present w'.hub j)
  Adds id w (failed e, w') = Unit {0}
  Adds id w (stopped, w') = Unit {0}

  after_capture-Adds :
      (id : Bytes) (wp : WatchedPane) (w v : Watcher W)
      (r : Answer (List Bytes × List Bytes × ℕ) × W)
      → Fits wp.width
      → Fits wp.height
      → ((j : Bytes) → Present v.hub j → Present w.hub j)
      → Adds id v (after_capture ctl id wp w r)
  unfolding after_capture put seeded
  after_capture-Adds id wp w v (ok (rows, cursor, seq), t) a b k =
      let wp' = seeded ctl rows cursor seq wp in
      (insert-Present_self id wp' w.hub a b, λ j p. insert-Present id wp' w.hub j a b (k j p))
  after_capture-Adds id wp w v (failed e, t) a b k = tt
  after_capture-Adds id wp w v (stopped, t) a b k = tt

  pub align-Adds :
      (info : PaneInfo) (w : Watcher W) (o : Option WatchedPane)
      → lookup info.id w.hub ≡ o
      → Fits info.width × Fits info.height
      → Adds info.id w (align ctl info o w)
  unfolding align seed put
  align-Adds info w none e (a, b) =
      let wp = new_pane info.width info.height in
      unfold new_pane in
      after_capture-Adds info.id wp (put ctl info.id wp w) w _ a b
        (λ j. insert-Present info.id wp w.hub j a b)
  align-Adds info w (some wp) e (a, b) =
      let wp' = resized info.width info.height wp in
      unfold resized in
      if_cases (Adds info.id w) (same_size wp info) (ok wp, w)
        (seed ctl info.id wp' (put ctl info.id wp' w))
        (λ s.
          let (x, y) = same_size-≡ wp info s in
          ((wp, e, subst Fits (sym x) a, subst Fits (sym y) b), λ j p. p))
        (λ _.
          after_capture-Adds info.id wp' (put ctl info.id wp' w) w _ a b
            (λ j. insert-Present info.id wp' w.hub j a b))
