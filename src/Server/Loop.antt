-- ===== src/Server/Loop.antt =====
-- internal/server/watcher.go: no round of the loop leaves a paused pane without a resume.
use shevet.Prelude.{
  ℕ, ◌-◌, ◌≡◌, refl, sym, ◌∙◌, inl, inr, Bool, true, false, ◌||◌, Option, none, some, List, [], ◌∷◌,
  ◌++◌, arith, Bool-cases, if_cases, Bytes, bytes_eq_refl,
}
use shevet.Prelude.Maps.{lookup, bytes_ne, bytes_cases}
use shevet.Server.Hub.{take_op, take_from, WatchedPane, Hub, has_id, sweep, new_pane}
use shevet.Server.Watcher.{
  Answer, ok, failed, stopped, Ctl, Watcher, put, apply, seeded, after_capture, seed,
}
use shevet.Server.Reconcile.{
  PaneInfo, list_words, parse_pane_line, resized, same_size, align, aligned, then_align, next_line,
  reconcile_lines, settle, after_list, reconcile,
}
use shevet.Server.Run.{
  Happening, arrived, takes, Select, burst, resume_due, shutdown, Round, going, left, take_due,
  apply_next, apply_events, after_reconcile, after_events, after_due, round, after_round, run,
}
use shevet.Server.Wakes.{is_in, Wakes, Sound, NeverStops, Wakes-insert, Wakes-all}
use shevet.Wire.{Pane}
use shevet.Server.Resume.{Kept, take_due-Kept, no_some, apply-Sound, resume_pane-Sound}

-- What a sweep leaves in the hub was there before.
pub lookup-sweep_kept :
    (keep : List Pane) (hub : Hub) (j : Bytes)
    → has_id keep j ≡ true
    → lookup j (sweep keep hub).0 ≡ lookup j hub
unfolding sweep lookup
lookup-sweep_kept keep [] j h = refl
lookup-sweep_kept keep ((i, wp) ∷ hub) j h = elim (bytes_cases i j) [
  | inl same ↦ rw (same, h, bytes_eq_refl j) refl
  | inr other ↦ elim (Bool-cases (has_id keep i)) [
    | inl e ↦ rw (e, bytes_ne i j other) (lookup-sweep_kept keep hub j h)
    | inr e ↦ rw (e, bytes_ne i j other) (lookup-sweep_kept keep hub j h)
  ]
]

pub lookup-sweep_gone :
    (keep : List Pane) (hub : Hub) (j : Bytes)
    → has_id keep j ≡ false
    → lookup j (sweep keep hub).0 ≡ none
unfolding sweep lookup
lookup-sweep_gone keep [] j h = refl
lookup-sweep_gone keep ((i, wp) ∷ hub) j h = elim (bytes_cases i j) [
  | inl same ↦ rw (same, h) (lookup-sweep_gone keep hub j h)
  | inr other ↦ elim (Bool-cases (has_id keep i)) [
    | inl e ↦ rw (e, bytes_ne i j other) (lookup-sweep_gone keep hub j h)
    | inr e ↦ rw e (lookup-sweep_gone keep hub j h)
  ]
]

-- The watcher with which a run goes on: each pane that is paused has a resume scheduled.
abbrev pub Awake : {W : Type 0} → Round W → Type 0
Awake (going w) = Wakes w.hub w.scheduled
Awake (left e w) = Unit {0}

module _ {W : Type 0} (ctl : Ctl W) (goes : NeverStops W ctl) (session : Bytes) where
  -- What stands in the hub afterwards is paused only as the pane was that is aligned.
  after_capture-Sound :
      (id : Bytes) (wp : WatchedPane) (w : Watcher W) (r : Answer (List Bytes × List Bytes × ℕ) × W)
      → (wp.paused ≡ true → is_in id w.scheduled ≡ true)
      → Sound w
      → Sound (after_capture ctl id wp w r).1
  unfolding after_capture put
  after_capture-Sound id wp w (stopped, t) k h = h
  after_capture-Sound id wp w (failed e, t) k h = h
  after_capture-Sound id wp w (ok (rows, cursor, seq), t) k h =
      Wakes-insert id (seeded ctl rows cursor seq wp) w.hub w.scheduled
        (Wakes-all w.hub w.scheduled id h) (unfold seeded in k)

  put-Sound :
      (id : Bytes) (wp : WatchedPane) (w : Watcher W)
      → (wp.paused ≡ true → is_in id w.scheduled ≡ true)
      → Sound w
      → Sound (put ctl id wp w)
  unfolding put
  put-Sound id wp w k h = Wakes-insert id wp w.hub w.scheduled (Wakes-all w.hub w.scheduled id h) k

  align-Sound :
      (info : PaneInfo) (w : Watcher W) (o : Option WatchedPane)
      → lookup info.id w.hub ≡ o
      → Sound w
      → Sound (align ctl info o w).1
  unfolding align seed
  align-Sound info w none e h =
      let wp = new_pane info.width info.height in
      let fresh : wp.paused ≡ true → is_in info.id w.scheduled ≡ true =
        unfold new_pane in λ p. absurd (ground arith) in
      after_capture-Sound info.id wp (put ctl info.id wp w) _ (unfold put in fresh)
        (put-Sound info.id wp w fresh h)
  align-Sound info w (some wp) e h =
      let wp' = resized info.width info.height wp in
      let kept : wp'.paused ≡ true → is_in info.id w.scheduled ≡ true =
        unfold resized in h info.id wp e in
      if_cases (λ r. Sound r.1) (same_size wp info) (ok wp, w)
        (seed ctl info.id wp' (put ctl info.id wp' w)) (λ _. h)
        (λ _.
          after_capture-Sound info.id wp' (put ctl info.id wp' w) _ (unfold put in kept)
            (put-Sound info.id wp' w kept h))

  aligned-Sound :
      (info : PaneInfo) (r : Answer WatchedPane × Watcher W)
      → Sound r.1
      → Sound (aligned ctl info r).1
  unfolding aligned
  aligned-Sound info (ok wp, w) h = h
  aligned-Sound info (failed e, w) h = h
  aligned-Sound info (stopped, w) h = h

  then_align-Sound : (a : Answer PaneInfo) (w : Watcher W) → Sound w → Sound (then_align ctl a w).1
  unfolding then_align
  then_align-Sound (failed e) w h = h
  then_align-Sound stopped w h = h
  then_align-Sound (ok info) w h =
      aligned-Sound info (align ctl info (lookup info.id w.hub) w)
        (align-Sound info w (lookup info.id w.hub) refl h)

  next_line-Sound :
      (r : Answer PaneInfo × Watcher W) (next : Pane → Watcher W → Answer (List Pane) × Watcher W)
      → ((p : Pane) (w : Watcher W) → Sound w → Sound (next p w).1)
      → Sound r.1
      → Sound (next_line ctl r next).1
  unfolding next_line
  next_line-Sound (ok info, w) next k h = k (record { id = info.id; title = info.title }) w h
  next_line-Sound (failed e, w) next k h = h
  next_line-Sound (stopped, w) next k h = h

  reconcile_lines-Sound :
      (ls : List Bytes) (panes : List Pane) (w : Watcher W)
      → Sound w
      → Sound (reconcile_lines ctl ls panes w).1
  unfolding reconcile_lines
  reconcile_lines-Sound [] panes w h = h
  reconcile_lines-Sound (l ∷ ls) panes w h =
      next_line-Sound (then_align ctl (parse_pane_line l) w)
        (λ p. reconcile_lines ctl ls (panes ++ p ∷ []))
        (λ p w'. reconcile_lines-Sound ls (panes ++ p ∷ []) w')
        (then_align-Sound (parse_pane_line l) w h)

  sweep-Sound :
      (keep : List Pane) (hub : Hub) (ids : List Bytes)
      → Wakes hub ids
      → Wakes (sweep keep hub).0 ids
  sweep-Sound keep hub ids h j wp found paused = elim (Bool-cases (has_id keep j)) [
    | inl e ↦ h j wp (sym (lookup-sweep_kept keep hub j e) ∙ found) paused
    | inr e ↦ absurd (no_some wp (sym (lookup-sweep_gone keep hub j e) ∙ found))
  ]

  settle-Sound : (r : Answer (List Pane) × Watcher W) → Sound r.1 → Sound (settle ctl r).1
  unfolding settle
  settle-Sound (ok panes, w) h = sweep-Sound panes w.hub w.scheduled h
  settle-Sound (failed e, w) h = h
  settle-Sound (stopped, w) h = h

  after_list-Sound :
      (r : Answer (List Bytes) × W) (w : Watcher W) → Sound w → Sound (after_list ctl r w).1
  unfolding after_list
  after_list-Sound (ok ls, t) w h =
      settle-Sound (reconcile_lines ctl ls [] (record w { tmux = t }))
        (reconcile_lines-Sound ls [] (record w { tmux = t }) h)
  after_list-Sound (failed e, t) w h = h
  after_list-Sound (stopped, t) w h = h

  apply_next-Sound :
      (evs : List Happening) (due : Bool) (r : Answer Bool × Watcher W)
      (next : Bool → Watcher W → Answer Bool × Watcher W)
      → ((b : Bool) (w : Watcher W) → Sound w → Sound (next b w).1)
      → Sound r.1
      → Sound (apply_next ctl session evs due r next).1
  unfolding apply_next
  apply_next-Sound evs due (ok more, w) next k h = k (due || more) w h
  apply_next-Sound evs due (failed e, w) next k h = h
  apply_next-Sound evs due (stopped, w) next k h = h

  take_from-Sound :
      (id : Bytes) (o : Option WatchedPane) (w : Watcher W)
      → lookup id w.hub ≡ o
      → Sound w
      → Sound (record w { hub = take_from id o w.hub })
  unfolding take_from
  take_from-Sound id none w e h = h
  take_from-Sound id (some wp) w e h =
      Wakes-insert id (record wp { pipe = record wp.pipe { queued = wp.pipe.queued - 1 } }) w.hub
        w.scheduled (Wakes-all w.hub w.scheduled id h) (λ paused. h id wp e paused)

  take_op-Sound :
      (id : Bytes) (w : Watcher W) → Sound w → Sound (record w { hub = take_op id w.hub })
  unfolding take_op
  take_op-Sound id w h = take_from-Sound id (lookup id w.hub) w refl h

  apply_events-Sound :
      (evs : List Happening) (due : Bool) (w : Watcher W)
      → Sound w
      → Sound (apply_events ctl session evs due w).1
  unfolding apply_events
  apply_events-Sound [] due w h = h
  apply_events-Sound (takes id ∷ evs) due w h =
      apply_events-Sound evs due (record w { hub = take_op id w.hub }) (take_op-Sound id w h)
  apply_events-Sound (arrived ev ∷ evs) due w h =
      apply_next-Sound evs due (apply ctl ev w) (apply_events ctl session evs)
        (apply_events-Sound evs) (apply-Sound ctl goes ev w h)

  after_reconcile-Sound :
      (r : Answer (List Pane) × Watcher W) → Sound r.1 → Awake (after_reconcile ctl session r)
  unfolding after_reconcile
  after_reconcile-Sound (ok panes, w) h = h
  after_reconcile-Sound (failed e, w) h = tt
  after_reconcile-Sound (stopped, w) h = tt

  reconcile-Sound : (w : Watcher W) → Sound w → Sound (reconcile ctl session w).1
  unfolding reconcile
  reconcile-Sound w h = after_list-Sound (ctl.command (list_words session) w.tmux) w h

  after_events-Sound :
      (closed : Bool) (r : Answer Bool × Watcher W)
      → Sound r.1
      → Awake (after_events ctl session closed r)
  unfolding after_events
  after_events-Sound closed (failed e, w) h = tt
  after_events-Sound closed (stopped, w) h = tt
  after_events-Sound true (ok due, w) h = tt
  after_events-Sound false (ok true, w) h =
      after_reconcile-Sound (reconcile ctl session w) (reconcile-Sound w h)
  after_events-Sound false (ok false, w) h = h

  after_due-Sound :
      (o : Option (Bytes × List Bytes)) (w : Watcher W)
      → ((j : Bytes) → Kept j w.scheduled o)
      → Sound w
      → Awake (after_due ctl session o w)
  unfolding after_due
  after_due-Sound none w k h = h
  after_due-Sound (some (id, rest)) w k h =
      resume_pane-Sound ctl goes id (record w { scheduled = rest })
        (λ j wp other found paused. k j other (h j wp found paused))

  round-Sound : (s : Select) (w : Watcher W) → Sound w → Awake (round ctl session s w)
  unfolding round
  round-Sound (burst evs closed) w h =
      after_events-Sound closed (apply_events ctl session evs false w)
        (apply_events-Sound evs false w h)
  round-Sound (resume_due n) w h =
      after_due-Sound (take_due n w.scheduled) w (λ j. take_due-Kept j n w.scheduled) h
  round-Sound shutdown w h = tt

  after_round-Sound :
      (r : Round W) (next : Watcher W → Round W)
      → ((w : Watcher W) → Sound w → Awake (next w))
      → Awake r
      → Awake (after_round ctl session r next)
  unfolding after_round
  after_round-Sound (going w) next k h = k w h
  after_round-Sound (left e w) next k h = tt

  run_loop-Awake : (ss : List Select) (w : Watcher W) → Sound w → Awake (run ctl session ss w)
  unfolding run
  run_loop-Awake [] w h = h
  run_loop-Awake (s ∷ ss) w h =
      after_round-Sound (round ctl session s w) (run ctl session ss) (run_loop-Awake ss)
        (round-Sound s w h)

-- Whatever the watcher selects, as long as no command is stopped by a shutdown: while its loop goes
-- on, each pane that is paused has a resume scheduled. It begins in a state where that holds.
pub run-Awake :
    {W : Type 0} (ctl : Ctl W) (session : Bytes) (ss : List Select) (w : Watcher W)
    → NeverStops W ctl
    → Wakes w.hub w.scheduled
    → Awake (run ctl session ss w)
run-Awake ctl session ss w goes h = run_loop-Awake ctl goes session ss w h
