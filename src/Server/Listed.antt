-- ===== src/Server/Listed.antt =====
-- internal/server/watcher.go: the registry and the hub after a reconcile that succeeds.
use mathlib.Core.Path.{subst}
use shevet.Prelude.{
  ◌≡◌, refl, sym, ap, ◌∙◌, ◌⊎◌, inl, inr, true, List, [], ◌∷◌, ◌++◌, map, append-nil, append_assoc,
  arith, Bool-cases, All, Bytes, bytes_eq, bytes_eq→≡, bytes_eq_refl,
}
use shevet.Prelude.Maps.{lookup}
use shevet.Server.Hub.{WatchedPane, Hub, has_id, sweep}
use shevet.Server.Watcher.{Answer, ok, failed, stopped, Ctl, Watcher}
use shevet.Server.Reconcile.{
  PaneInfo, list_words, parse_pane_line, align, aligned, then_align, next_line, reconcile_lines,
  settle, after_list, reconcile,
}
use shevet.Server.Loop.{lookup-sweep_kept}
use shevet.Server.Aligned.{
  FitsInfo, pane_of, Present, Parses, parse_pane_line-FitsInfo, Adds, align-Adds,
}
use shevet.Wire.{Pane}

has_id-last :
    (panes : List Pane) (p : Pane) (id : Bytes)
    → has_id (panes ++ p ∷ []) id ≡ true
    → (has_id panes id ≡ true) ⊎ (p.id ≡ id)
has_id-last [] p id h = inr (bytes_eq→≡ p.id id (ground arith))
has_id-last (q ∷ qs) p id h = elim (Bool-cases (bytes_eq q.id id)) [
  | inl e ↦ inl (rw e refl)
  | inr e ↦ elim (has_id-last qs p id (ground arith)) [ inl l ↦ inl (rw e l) | inr r ↦ inr r ]
]

abbrev AllPresent : List Pane → Hub → Type 0
AllPresent panes hub = (id : Bytes) → has_id panes id ≡ true → Present hub id

each-Present : (ps : List Pane) (hub : Hub) → AllPresent ps hub → All (λ p. Present hub p.id) ps
each-Present [] hub h = tt
each-Present (p ∷ ps) hub h =
    (h p.id (rw (bytes_eq_refl p.id) refl), each-Present ps hub (λ id m. h id (ground (arith, m))))

-- A sweep leaves the panes that it is told to keep.
sweep-has_id : (keep : List Pane) (hub : Hub) → All (λ e. has_id keep e.0 ≡ true) (sweep keep hub).0
unfolding sweep
sweep-has_id keep [] = tt
sweep-has_id keep ((id, wp) ∷ hub) = elim (Bool-cases (has_id keep id)) [
  | inl e ↦ rw e (e, sweep-has_id keep hub)
  | inr e ↦ rw e (sweep-has_id keep hub)
]

module _ {W : Type 0} (ctl : Ctl W) where
  -- A line that was read and aligned.
  abbrev Next : Answer PaneInfo → Watcher W → Answer PaneInfo × Watcher W → Type 0
  Next a w (ok info, w') =
      (a ≡ ok info) × Present w'.hub info.id × ((j : Bytes) → Present w.hub j → Present w'.hub j)
  Next a w (failed e, w') = Unit {0}
  Next a w (stopped, w') = Unit {0}

  aligned-Next :
      (info : PaneInfo) (w : Watcher W) (r : Answer WatchedPane × Watcher W)
      → Adds ctl info.id w r
      → Next (ok info) w (aligned ctl info r)
  unfolding aligned
  aligned-Next info w (ok wp, w') (a, b) = (refl, a, b)
  aligned-Next info w (failed e, w') h = tt
  aligned-Next info w (stopped, w') h = tt

  then_align-Next :
      (a : Answer PaneInfo) (w : Watcher W) → FitsInfo a → Next a w (then_align ctl a w)
  unfolding then_align
  then_align-Next (failed e) w h = tt
  then_align-Next stopped w h = tt
  then_align-Next (ok info) w h =
      aligned-Next info w (align ctl info (lookup info.id w.hub) w)
        (align-Adds ctl info w (lookup info.id w.hub) refl h)

  -- Lines that were all read: `panes` and what the lines say, all of it in the hub.
  abbrev pub Listed : List Bytes → List Pane → Answer (List Pane) × Watcher W → Type 0
  Listed ls panes (ok ps, w) =
      (infos : List PaneInfo) × Parses ls infos
      × (ps ≡ panes ++ map pane_of infos)
      × AllPresent ps w.hub
  Listed ls panes (failed e, w) = Unit {0}
  Listed ls panes (stopped, w) = Unit {0}

  Listed-cons :
      (l : Bytes) (ls : List Bytes) (panes : List Pane) (info : PaneInfo)
      (r : Answer (List Pane) × Watcher W)
      → parse_pane_line l ≡ ok info
      → Listed ls (panes ++ pane_of info ∷ []) r
      → Listed (l ∷ ls) panes r
  Listed-cons l ls panes info (ok ps, w) e (infos, parsed, same, all) = (
    info ∷ infos,
    (e, parsed),
    same ∙ append_assoc panes (pane_of info ∷ []) (map pane_of infos),
    all,
  )
  Listed-cons l ls panes info (failed x, w) e h = tt
  Listed-cons l ls panes info (stopped, w) e h = tt

  next_line-Listed :
      (l : Bytes) (ls : List Bytes) (panes : List Pane) (w : Watcher W)
      (r : Answer PaneInfo × Watcher W) (next : Pane → Watcher W → Answer (List Pane) × Watcher W)
      → AllPresent panes w.hub
      → Next (parse_pane_line l) w r
      → ((p : Pane) (w' : Watcher W)
          → AllPresent (panes ++ p ∷ []) w'.hub
          → Listed ls (panes ++ p ∷ []) (next p w'))
      → Listed (l ∷ ls) panes (next_line ctl r next)
  unfolding next_line
  next_line-Listed l ls panes w (ok info, w') next h (parsed, there, keeps) k =
      Listed-cons l ls panes info (next (pane_of info) w') parsed (k (pane_of info) w' all)
    where
      all : AllPresent (panes ++ pane_of info ∷ []) w'.hub
      all id m = elim (has_id-last panes (pane_of info) id m) [
        | inl old ↦ keeps id (h id old)
        | inr same ↦ subst (Present w'.hub) same there
      ]
  next_line-Listed l ls panes w (failed e, w') next h n k = tt
  next_line-Listed l ls panes w (stopped, w') next h n k = tt

  reconcile_lines-Listed :
      (ls : List Bytes) (panes : List Pane) (w : Watcher W)
      → AllPresent panes w.hub
      → Listed ls panes (reconcile_lines ctl ls panes w)
  unfolding reconcile_lines
  reconcile_lines-Listed [] panes w h = ([], tt, sym (append-nil panes), h)
  reconcile_lines-Listed (l ∷ ls) panes w h =
      next_line-Listed l ls panes w (then_align ctl (parse_pane_line l) w)
        (λ p. reconcile_lines ctl ls (panes ++ p ∷ [])) h
        (then_align-Next (parse_pane_line l) w (parse_pane_line-FitsInfo l))
        (λ p w'. reconcile_lines-Listed ls (panes ++ p ∷ []) w')

  -- What a reconcile that succeeds has done with the lines of the list.
  abbrev pub Mirrors : List Bytes → Answer (List Pane) × Watcher W → Type 0
  Mirrors ls (ok ps, w) =
      (infos : List PaneInfo) × Parses ls infos
      × (w.registry ≡ map pane_of infos)
      × All (λ p. Present w.hub p.id) w.registry
      × All (λ e. has_id w.registry e.0 ≡ true) w.hub
  Mirrors ls (failed e, w) = Unit {0}
  Mirrors ls (stopped, w) = Unit {0}

  settle-Mirrors :
      (ls : List Bytes) (r : Answer (List Pane) × Watcher W)
      → Listed ls [] r
      → Mirrors ls (settle ctl r)
  unfolding settle
  settle-Mirrors ls (ok ps, w) (infos, parsed, same, all) = (
    infos,
    parsed,
    same,
    each-Present ps (sweep ps w.hub).0 (λ id m.
        let (wp, found, a, b) = all id m in (wp, lookup-sweep_kept ps w.hub id m ∙ found, a, b)),
    sweep-has_id ps w.hub,
  )
  settle-Mirrors ls (failed e, w) h = tt
  settle-Mirrors ls (stopped, w) h = tt

  -- A reconcile that succeeds on the lines that tmux listed: each line says a pane, the registry
  -- holds these panes in the same order, the hub holds exactly their ids, and the size of each of
  -- them in the hub is in bounds.
  pub reconcile-Mirrors :
      (session : Bytes) (w : Watcher W) (ls : List Bytes) (t : W)
      → ctl.command (list_words session) w.tmux ≡ (ok ls, t)
      → Mirrors ls (reconcile ctl session w)
  unfolding reconcile after_list
  reconcile-Mirrors session w ls t listed =
      let start : Watcher W = record w { tmux = t } in
      let r = reconcile_lines ctl ls [] start in
      subst (Mirrors ls) (sym (ap (λ x. after_list ctl x w) listed))
        (settle-Mirrors ls r (reconcile_lines-Listed ls [] start (λ id m. absurd (ground arith))))
