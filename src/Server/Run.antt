-- ===== src/Server/Run.antt =====
-- internal/server/watcher.go: the loop of `run`, a round for each time that it selects.
use shevet.Prelude.{ℕ, suc, zero, Bool, true, false, ◌||◌, Option, none, some, List, [], ◌∷◌, Bytes}
use shevet.Server.Watcher.{
  Failure, stream_ended, Answer, ok, failed, stopped, Ctl, Watcher, apply, resume_pane, teardown,
}
use shevet.Server.Hub.{take_op}
use shevet.Server.Reconcile.{reconcile}
use shevet.Tmuxctl.Parse.{Event}
use shevet.Wire.{Pane}

-- What happens while `run` works through the events that are there: the next event is applied, or the
-- pipeline of a pane, which runs beside the watcher, takes an op.
pub data Happening : Type 0 where
  arrived : Event → Happening
  takes : Bytes → Happening

-- What `run` selects: the events that are there, with what happens between them, and whether the
-- stream closed behind them; one of the resumes that are scheduled; or shutdown.
pub data Select : Type 0 where
  burst : List Happening → (closed : Bool) → Select
  resume_due : ℕ → Select
  shutdown : Select

-- A round goes on, or leaves the loop, with an error or without one.
pub data Round (W : Type 0) : Type 0 where
  going : Watcher W → Round W
  left : Option Failure → Watcher W → Round W

unfoldable pub keep_head : Bytes → Option (Bytes × List Bytes) → Option (Bytes × List Bytes)
keep_head id none = none
keep_head id (some (j, rest)) = some (j, id ∷ rest)

-- The scheduled resume at a position, and the others.
unfoldable pub take_due : ℕ → List Bytes → Option (Bytes × List Bytes)
unfolding keep_head
take_due n [] = none
take_due zero (id ∷ ids) = some (id, ids)
take_due (suc n) (id ∷ ids) = keep_head id (take_due n ids)

module _ {W : Type 0} (ctl : Ctl W) (session : Bytes) where
  unfoldable pub apply_next :
      List Happening
      → Bool
      → Answer Bool × Watcher W
      → (Bool → Watcher W → Answer Bool × Watcher W)
      → Answer Bool × Watcher W
  apply_next evs due (ok more, w) next = next (due || more) w
  apply_next evs due (failed e, w) next = (failed e, w)
  apply_next evs due (stopped, w) next = (stopped, w)

  -- Events are applied in order, up to an error; whether any of them calls for a reconcile.
  unfoldable pub apply_events : List Happening → Bool → Watcher W → Answer Bool × Watcher W
  unfolding apply apply_next take_op
  apply_events [] due w = (ok due, w)
  apply_events (takes id ∷ evs) due w = apply_events evs due (record w { hub = take_op id w.hub })
  apply_events (arrived ev ∷ evs) due w = apply_next evs due (apply ctl ev w) (apply_events evs)

  unfoldable pub after_reconcile : Answer (List Pane) × Watcher W → Round W
  after_reconcile (ok panes, w) = going w
  after_reconcile (failed e, w) = left (some e) w
  after_reconcile (stopped, w) = left none w

  unfoldable pub after_events : Bool → Answer Bool × Watcher W → Round W
  unfolding after_reconcile reconcile
  after_events closed (failed e, w) = left (some e) w
  after_events closed (stopped, w) = left none w
  after_events true (ok due, w) = left (some stream_ended) w
  after_events false (ok true, w) = after_reconcile (reconcile ctl session w)
  after_events false (ok false, w) = going w

  unfoldable pub after_due : Option (Bytes × List Bytes) → Watcher W → Round W
  unfolding resume_pane
  after_due none w = going w
  after_due (some (id, rest)) w = going (resume_pane ctl id (record w { scheduled = rest }))

  unfoldable pub round : Select → Watcher W → Round W
  unfolding after_events apply_events after_due take_due
  round (burst evs closed) w = after_events closed (apply_events evs false w)
  round (resume_due n) w = after_due (take_due n w.scheduled) w
  round shutdown w = left none w

  -- `run`: round after round; whoever leaves the loop tears the watcher down.
  unfoldable pub after_round : Round W → (Watcher W → Round W) → Round W
  unfolding teardown
  after_round (going w) next = next w
  after_round (left e w) next = left e (teardown ctl w)

  unfoldable pub run : List Select → Watcher W → Round W
  unfolding round after_round
  run [] w = going w
  run (s ∷ ss) w = after_round (round s w) (run ss)
