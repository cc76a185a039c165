-- ===== src/Server/Wakes.antt =====
-- internal/server/watcher.go: a pane that is paused has a resume scheduled.
use mathlib.Core.Path.{subst}
use shevet.Prelude.{
  ℕ, ◌≡◌, refl, sym, ap, ◌∙◌, ◌≢◌, inl, inr, Bool, true, false, ◌||◌, some, List, [], ◌∷◌, ◌++◌,
  arith, ltb, if◌then◌else◌, if_cases, Bytes, bytes_eq, bytes_eq_refl,
}
use shevet.Prelude.Maps.{lookup, insert, bytes_cases, lookup-insert_self, lookup-insert_ne}
use shevet.Server.Hub.{offer, WatchedPane, Hub}
use shevet.Server.Watcher.{
  Answer, ok, failed, stopped, Ctl, Watcher, schedule_resume, put, after_pause, pause_pane,
  apply_output, adopt_pause,
}

abbrev pub is_in : Bytes → List Bytes → Bool
is_in id [] = false
is_in id (j ∷ js) = bytes_eq j id || is_in id js

-- Each pane that is paused has a resume scheduled, but for the panes `but`.
abbrev pub WakesBut : Bytes → Hub → List Bytes → Type 0
WakesBut but hub ids =
    (id : Bytes) (wp : WatchedPane)
    → but ≢ id
    → lookup id hub ≡ some wp
    → wp.paused ≡ true
    → is_in id ids ≡ true

abbrev pub Wakes : Hub → List Bytes → Type 0
Wakes hub ids =
    (id : Bytes) (wp : WatchedPane)
    → lookup id hub ≡ some wp
    → wp.paused ≡ true
    → is_in id ids ≡ true

is_in-last : (id : Bytes) (ids : List Bytes) → is_in id (ids ++ id ∷ []) ≡ true
is_in-last id [] = rw (bytes_eq_refl id) refl
is_in-last id (j ∷ js) = ground (arith, is_in-last id js)

is_in-append :
    (id j : Bytes) (ids : List Bytes) → is_in id ids ≡ true → is_in id (ids ++ j ∷ []) ≡ true
is_in-append id j [] h = absurd (ground arith)
is_in-append id j (k ∷ ks) h = ground (arith, is_in-append id j ks)

pub Option-some : {A : Type 0} (a b : A) → some a ≡ some b → a ≡ b
Option-some a b h = ground arith

-- A pane is put into the hub: if it is paused, its resume is scheduled.
pub Wakes-insert :
    (id : Bytes) (wp : WatchedPane) (hub : Hub) (ids : List Bytes)
    → WakesBut id hub ids
    → (wp.paused ≡ true → is_in id ids ≡ true)
    → Wakes (insert id wp hub) ids
Wakes-insert id wp hub ids h k j vp found paused = elim (bytes_cases id j) [
  | inl same ↦
      let same_pane : wp ≡ vp = Option-some wp vp (
        sym (lookup-insert_self id wp hub)
        ∙ subst (λ x. lookup x (insert id wp hub) ≡ some vp) (sym same) found) in
      subst (λ x. is_in x ids ≡ true) same (k (ap (λ p. p.paused) same_pane ∙ paused))
  | inr other ↦ h j vp other (sym (lookup-insert_ne id j wp hub other) ∙ found) paused
]

pub Wakes-all : (hub : Hub) (ids : List Bytes) (but : Bytes) → Wakes hub ids → WakesBut but hub ids
Wakes-all hub ids but h id wp n = h id wp

Wakes-schedule :
    (id : Bytes) (hub : Hub) (ids : List Bytes) → WakesBut id hub ids → Wakes hub (ids ++ id ∷ [])
Wakes-schedule id hub ids h j wp found paused = elim (bytes_cases id j) [
  | inl same ↦ subst (λ x. is_in x (ids ++ id ∷ []) ≡ true) same (is_in-last id ids)
  | inr other ↦ is_in-append j id ids (h j wp other found paused)
]

-- Commands are not stopped: the Server does not shut down.
pub record NeverStops (W : Type 0) (ctl : Ctl W) : Type 0 where
  pub command_goes : (args : List Bytes) (t : W) → (ctl.command args t).0 ≢ stopped
  pub capture_goes : (a b : List Bytes) (t : W) → (ctl.capture a b t).0 ≢ stopped

abbrev pub Sound : {W : Type 0} → Watcher W → Type 0
Sound w = Wakes w.hub w.scheduled

module _ {W : Type 0} (ctl : Ctl W) (goes : NeverStops W ctl) where
  pub schedule_resume-Sound :
      (id : Bytes) (w : Watcher W)
      → WakesBut id w.hub w.scheduled
      → Sound (schedule_resume ctl id w)
  unfolding schedule_resume
  schedule_resume-Sound id w h = Wakes-schedule id w.hub w.scheduled h

  after_pause-Sound :
      (id : Bytes) (r : Answer (List Bytes) × W) (w : Watcher W)
      → r.0 ≢ stopped
      → WakesBut id w.hub w.scheduled
      → Sound (after_pause ctl id r w)
  unfolding after_pause
  after_pause-Sound id (stopped, t) w n h = absurd (n refl)
  after_pause-Sound id (ok lines, t) w n h = schedule_resume-Sound id (record w { tmux = t }) h
  after_pause-Sound id (failed e, t) w n h = schedule_resume-Sound id (record w { tmux = t }) h

  pub put-but :
      (id : Bytes) (wp : WatchedPane) (w : Watcher W)
      → WakesBut id w.hub w.scheduled
      → WakesBut id (put ctl id wp w).hub w.scheduled
  unfolding put
  put-but id wp w h j vp other found paused =
      h j vp other (sym (lookup-insert_ne id j wp w.hub other) ∙ found) paused

  pause_pane-Sound :
      (id : Bytes) (wp : WatchedPane) (w : Watcher W) → Sound w → Sound (pause_pane ctl id wp w)
  unfolding pause_pane
  pause_pane-Sound id wp w h =
      after_pause-Sound id _ _ (goes.command_goes _ _)
        (put-but id (record wp { paused = true }) w (Wakes-all w.hub w.scheduled id h))

  -- The pane that stands in the hub is put back with the pause as it was.
  put_same-Sound :
      (id : Bytes) (wp wp' : WatchedPane) (w : Watcher W)
      → lookup id w.hub ≡ some wp
      → wp'.paused ≡ wp.paused
      → Sound w
      → Sound (put ctl id wp' w)
  unfolding put
  put_same-Sound id wp wp' w found same h =
      Wakes-insert id wp' w.hub w.scheduled (Wakes-all w.hub w.scheduled id h)
        (λ paused. h id wp found (sym same ∙ paused))

  pub apply_output-Sound :
      (id data' : Bytes) (seq : ℕ) (wp : WatchedPane) (w : Watcher W)
      → lookup id w.hub ≡ some wp
      → Sound w
      → Sound (apply_output ctl id data' seq wp w)
  unfolding apply_output
  apply_output-Sound id data' seq wp w found h =
      let (accepted, pipe) = offer data' wp.pipe in
      let wp' = record wp { pipe = pipe } in
      if_cases Sound (ltb seq wp.seed_barrier || wp.paused) w
        (if accepted then put ctl id wp' w else pause_pane ctl id wp w) (λ _. h)
        (λ _.
          if_cases Sound accepted (put ctl id wp' w) (pause_pane ctl id wp w)
            (λ _. put_same-Sound id wp wp' w found refl h) (λ _. pause_pane-Sound id wp w h))

  pub adopt_pause-Sound :
      (id : Bytes) (wp : WatchedPane) (w : Watcher W) → Sound w → Sound (adopt_pause ctl id wp w)
  unfolding adopt_pause
  adopt_pause-Sound id wp w h =
      let wp' = record wp { paused = true } in
      if_cases Sound wp.paused w (schedule_resume ctl id (put ctl id wp' w)) (λ _. h)
        (λ _.
          schedule_resume-Sound id (put ctl id wp' w)
            (put-but id wp' w (Wakes-all w.hub w.scheduled id h)))
