-- ===== src/Server/Resume.antt =====
-- internal/server/watcher.go: resumes, reconciles and the loop keep every paused pane's resume.
use mathlib.Core.Path.{subst}
use shevet.Prelude.{
  ℕ, suc, zero, ◌≡◌, refl, sym, ap, ◌∙◌, ◌≢◌, inl, inr, Bool, true, false, Option, none, some, List,
  [], ◌∷◌, arith, Option-cases, if_cases, Bytes,
}
use shevet.Prelude.Maps.{lookup, bytes_ne, bytes_cases}
use shevet.Server.Hub.{WatchedPane}
use shevet.Server.Watcher.{
  Answer, ok, failed, stopped, Ctl, Watcher, put, apply_output, adopt_pause, on_pane, apply, seeded,
  after_capture, seed, after_continue, continue_pane, after_seed, resume_paused, resume_pane,
}
use shevet.Server.Run.{take_due, keep_head}
use shevet.Server.Wakes.{
  is_in, WakesBut, Sound, NeverStops, Wakes-insert, put-but, Option-some, schedule_resume-Sound,
  apply_output-Sound, adopt_pause-Sound,
}
use shevet.Tmuxctl.Parse.{Event, output, pause, continue, topology, exit, unknown}

pub no_some : (vp : WatchedPane) → none ≡ some vp → ⊥
no_some vp e = ground arith

no_both : (b : Bool) → b ≡ false → b ≡ true → ⊥
no_both b e f = ground arith

-- What is taken from a list is gone; all others are still there.
abbrev pub Kept : Bytes → List Bytes → Option (Bytes × List Bytes) → Type 0
Kept j ids none = Unit {0}
Kept j ids (some (id, rest)) = id ≢ j → is_in j ids ≡ true → is_in j rest ≡ true

keep_head-Kept :
    (j i : Bytes) (ids : List Bytes) (o : Option (Bytes × List Bytes))
    → Kept j ids o
    → Kept j (i ∷ ids) (keep_head i o)
unfolding keep_head
keep_head-Kept j i ids none h = tt
keep_head-Kept j i ids (some (id, rest)) h = λ n m. ground (arith, h n)

pub take_due-Kept : (j : Bytes) (n : ℕ) (ids : List Bytes) → Kept j ids (take_due n ids)
unfolding take_due
take_due-Kept j n [] = tt
take_due-Kept j zero (i ∷ ids) = λ n m. ground (arith, bytes_ne i j n)
take_due-Kept j (suc n) (i ∷ ids) = keep_head-Kept j i ids (take_due n ids) (take_due-Kept j n ids)

module _ {W : Type 0} (ctl : Ctl W) (goes : NeverStops W ctl) where
  on_pane-Sound :
      (o : Option WatchedPane) (f : WatchedPane → Watcher W → Watcher W) (w : Watcher W)
      → ((wp : WatchedPane) → o ≡ some wp → Sound (f wp w))
      → Sound w
      → Sound (on_pane ctl o f w)
  unfolding on_pane
  on_pane-Sound none f w h k = k
  on_pane-Sound (some wp) f w h k = h wp refl

  pub apply-Sound : (ev : Event) (w : Watcher W) → Sound w → Sound (apply ctl ev w).1
  unfolding apply
  apply-Sound (output id data' seq) w h =
      on_pane-Sound (lookup id w.hub) (apply_output ctl id data' seq) w
        (λ wp found. apply_output-Sound ctl goes id data' seq wp w found h) h
  apply-Sound (pause id) w h =
      on_pane-Sound (lookup id w.hub) (adopt_pause ctl id) w
        (λ wp found. adopt_pause-Sound ctl goes id wp w h) h
  apply-Sound (continue id) w h = h
  apply-Sound (topology t) w h = h
  apply-Sound (exit r) w h = h
  apply-Sound (unknown l) w h = h

  after_continue-Sound :
      (id : Bytes) (wp : WatchedPane) (w : Watcher W) (r : Answer (List Bytes) × W)
      → r.0 ≢ stopped
      → WakesBut id w.hub w.scheduled
      → Sound (after_continue ctl id wp (put ctl id (record wp { paused = false }) w) r)
  unfolding after_continue
  after_continue-Sound id wp w (stopped, t) n h = absurd (n refl)
  after_continue-Sound id wp w (ok lines, t) n h =
      unfold put in
      Wakes-insert id (record wp { paused = false }) w.hub w.scheduled h
        (λ p. absurd (ground arith))
  after_continue-Sound id wp w (failed e, t) n h =
      let wp' = record wp { paused = true } in
      let w' : Watcher W = record (put ctl id (record wp { paused = false }) w) { tmux = t } in
      schedule_resume-Sound ctl goes id (put ctl id wp' w')
        (put-but ctl goes id wp' w' (put-but ctl goes id (record wp { paused = false }) w h))

  -- A resume that was due: the pane is no longer paused, or has another resume scheduled.
  resumed-Sound :
      (id : Bytes) (wp : WatchedPane) (w : Watcher W) (r : Answer (List Bytes × List Bytes × ℕ) × W)
      → r.0 ≢ stopped
      → WakesBut id w.hub w.scheduled
      → Sound (after_seed ctl id (after_capture ctl id wp w r))
  unfolding after_seed after_capture continue_pane
  resumed-Sound id wp w (stopped, t) n h = absurd (n refl)
  resumed-Sound id wp w (failed e, t) n h =
      schedule_resume-Sound ctl goes id (record w { tmux = t }) h
  resumed-Sound id wp w (ok (rows, cursor, seq), t) n h =
      let wp' = seeded ctl rows cursor seq wp in
      let w' : Watcher W = record w { tmux = t } in
      after_continue-Sound id wp' (put ctl id wp' w') _ (goes.command_goes _ _)
        (put-but ctl goes id wp' w' h)

  pub resume_pane-Sound :
      (id : Bytes) (w : Watcher W) → WakesBut id w.hub w.scheduled → Sound (resume_pane ctl id w)
  unfolding resume_pane resume_paused seed on_pane
  resume_pane-Sound id w h = elim (Option-cases (lookup id w.hub)) [
    | inl missing ↦ rw missing (gone missing)
    | inr (wp, found) ↦ rw found (
        if_cases Sound wp.paused (after_seed ctl id (seed ctl id wp w)) w
          (λ _. resumed-Sound id wp w _ (goes.capture_goes _ _ _) h)
          (λ awake. still wp found awake))
  ]
    where
      gone : lookup id w.hub ≡ none → Sound w
      gone missing j vp found paused = elim (bytes_cases id j) [
        | inl same ↦
            let clash : lookup j w.hub ≡ none = subst (λ x. lookup x w.hub ≡ none) same missing in
            absurd (no_some vp (sym clash ∙ found))
        | inr other ↦ h j vp other found paused
      ]

      still : (wp : WatchedPane) → lookup id w.hub ≡ some wp → wp.paused ≡ false → Sound w
      still wp found awake j vp found' paused = elim (bytes_cases id j) [
        | inl same ↦
            let found'' : lookup j w.hub ≡ some wp =
              subst (λ x. lookup x w.hub ≡ some wp) same found in
            let one : wp ≡ vp = Option-some wp vp (sym found'' ∙ found') in
            absurd (no_both wp.paused awake (ap (λ p. p.paused) one ∙ paused))
        | inr other ↦ h j vp other found' paused
      ]
