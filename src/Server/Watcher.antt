-- ===== src/Server/Watcher.antt =====
-- internal/server/watcher.go: the watcher's state and its handlers. Commands to tmux are a
-- state-passing function, and an answer says whether the command failed, and whether it failed
-- because the Server shuts down (`ctx.Err() != nil`).
use shevet.Prelude.{
  ℕ, Bool, true, false, ◌||◌, Option, none, some, List, [], ◌∷◌, ◌++◌, ltb, ◌==◌, if◌then◌else◌, ℤ,
  pos, ◌+ℤ◌, Bytes, codes, is_space, trim_space, join,
}
use shevet.Prelude.Decimal.{itoa, is_digit, atoi}
use shevet.Prelude.Maps.{lookup, insert}
use shevet.Server.Hub.{offer, deliver_seed, close_all, WatchedPane, Hub, sweep}
use shevet.Tmuxctl.Parse.{Event, output, pause, continue, topology, exit, unknown}
use shevet.Wire.{Pane}

-- The errors that the watcher returns, each with what its text is made of.
pub data Failure : Type 0 where
  command_error : Bytes → Failure
  control_closed : (reason : Bytes) → Failure
  stream_ended : Failure
  malformed_line : (line : Bytes) → Failure
  malformed_geometry : (line : Bytes) → Failure
  implausible_geometry : (width height : ℤ) → (line : Bytes) → Failure

pub data Answer (A : Type 0) : Type 0 where
  ok : A → Answer A
  failed : Failure → Answer A
  stopped : Answer A

-- What the handlers call: `Command`, for its lines, and the one use of `CommandsSeq`, for the
-- replies to two commands and the position of the first.
pub record Ctl (W : Type 0) : Type 0 where
  pub command : List Bytes → W → Answer (List Bytes) × W
  pub capture : List Bytes → List Bytes → W → Answer (List Bytes × List Bytes × ℕ) × W

-- `watcher`, with the hub and the registry that it keeps. `scheduled` holds the panes of the resume
-- timers and signals that `run` has not taken, `closed_panes` those that left the hub.
pub record Watcher (W : Type 0) : Type 0 where
  pub tmux : W
  pub hub : Hub
  pub registry : List Pane
  pub scheduled : List Bytes
  pub closed_panes : List WatchedPane
  pub is_done : Bool

-- `%d` of Sscanf: spaces, a sign, and digits, in an int.
unfoldable pub skip_spaces : Bytes → Bytes
skip_spaces [] = []
skip_spaces (c ∷ s) = let rest = skip_spaces s in if is_space c then rest else c ∷ s

abbrev pub split_digits : Bytes → Bytes × Bytes
split_digits [] = ([], [])
split_digits (c ∷ s) = let (d, r) = split_digits s in if is_digit c then (c ∷ d, r) else ([], c ∷ s)

abbrev pub with_rest : Bytes → Option ℤ → Option (ℤ × Bytes)
with_rest rest none = none
with_rest rest (some n) = some (n, rest)

abbrev pub signed : Bytes → Bytes × Bytes → Option (ℤ × Bytes)
signed sign (digits, rest) = with_rest rest (atoi (sign ++ digits))

unfoldable pub scan_signed : Bytes → Option (ℤ × Bytes)
scan_signed [] = none
scan_signed (c ∷ s) =
    if c == b'-' || c == b'+'
    then signed (c ∷ []) (split_digits s)
    else signed [] (split_digits (c ∷ s))

unfoldable pub scan_int : Bytes → Option (ℤ × Bytes)
unfolding scan_signed skip_spaces atoi
scan_int s = scan_signed (skip_spaces s)

-- White space in a format takes at least one space, or the end.
unfoldable pub scan_gap : Bytes → Option Bytes
unfolding skip_spaces
scan_gap [] = some []
scan_gap (c ∷ s) = if is_space c then some (skip_spaces s) else none

-- Two ints with white space between them: both, or as many as were read.
abbrev pub second_int : ℤ → Option (ℤ × Bytes) → Option ℤ × Option ℤ
second_int a none = (some a, none)
second_int a (some (b, _)) = (some a, some b)

unfoldable pub behind_first : ℤ → Option Bytes → Option ℤ × Option ℤ
unfolding scan_int
behind_first a none = (some a, none)
behind_first a (some s) = second_int a (scan_int s)

unfoldable pub from_first : Option (ℤ × Bytes) → Option ℤ × Option ℤ
unfolding behind_first scan_gap
from_first none = (none, none)
from_first (some (a, rest)) = behind_first a (scan_gap rest)

unfoldable pub scan_pair : Bytes → Option ℤ × Option ℤ
unfolding scan_int from_first
scan_pair s = from_first (scan_int s)

abbrev pub or_zero : Option ℤ → ℤ
or_zero none = pos 0
or_zero (some n) = n

module _ {W : Type 0} (ctl : Ctl W) where
  unfoldable pub schedule_resume : Bytes → Watcher W → Watcher W
  schedule_resume id w = record w { scheduled = w.scheduled ++ id ∷ [] }

  unfoldable pub put : Bytes → WatchedPane → Watcher W → Watcher W
  unfolding insert
  put id wp w = record w { hub = insert id wp w.hub }

  unfoldable pub after_pause : Bytes → Answer (List Bytes) × W → Watcher W → Watcher W
  unfolding schedule_resume
  after_pause id (stopped, t) w = record w { tmux = t }
  after_pause id (ok lines, t) w = schedule_resume id (record w { tmux = t })
  after_pause id (failed e, t) w = schedule_resume id (record w { tmux = t })

  abbrev flow_words : Bytes → Bytes → List Bytes
  flow_words id verb = codes "refresh-client" ∷ codes "-A" ∷ (id ++ verb) ∷ []

  -- `pausePane`
  unfoldable pub pause_pane : Bytes → WatchedPane → Watcher W → Watcher W
  unfolding after_pause put
  pause_pane id wp w =
      after_pause id (ctl.command (flow_words id (codes ":pause")) w.tmux)
        (put id (record wp { paused = true }) w)

  -- Output of a pane in the hub: dropped, accepted, or the sign to pause.
  unfoldable pub apply_output : Bytes → Bytes → ℕ → WatchedPane → Watcher W → Watcher W
  unfolding offer put pause_pane
  apply_output id data' seq wp w =
      let (accepted, pipe) = offer data' wp.pipe in
      if ltb seq wp.seed_barrier || wp.paused
      then w
      else if accepted
      then put id (record wp { pipe = pipe }) w
      else pause_pane id wp w

  unfoldable pub adopt_pause : Bytes → WatchedPane → Watcher W → Watcher W
  unfolding put schedule_resume
  adopt_pause id wp w =
      if wp.paused then w else schedule_resume id (put id (record wp { paused = true }) w)

  unfoldable pub on_pane :
      Option WatchedPane → (WatchedPane → Watcher W → Watcher W) → Watcher W → Watcher W
  on_pane none f w = w
  on_pane (some wp) f w = f wp w

  -- `apply`: whether a reconcile is called for, or the error that ends the watcher.
  unfoldable pub apply : Event → Watcher W → Answer Bool × Watcher W
  unfolding lookup on_pane apply_output adopt_pause trim_space
  apply (output id data' seq) w =
      (ok false, on_pane (lookup id w.hub) (apply_output id data' seq) w)
  apply (pause id) w = (ok false, on_pane (lookup id w.hub) (adopt_pause id) w)
  apply (continue id) w = (ok false, w)
  apply (topology notification) w = (ok true, w)
  apply (exit reason) w = (failed (control_closed (trim_space reason)), w)
  apply (unknown line) w = (ok false, w)

  -- The bytes of a seed: the rows on a pristine screen, and the cursor where it was.
  unfoldable pub cursor_of : List Bytes → ℤ × ℤ
  unfolding scan_pair
  cursor_of (line ∷ []) = let (x, y) = scan_pair line in (or_zero x, or_zero y)
  cursor_of _ = (pos 0, pos 0)

  unfoldable pub seed_text : List Bytes → List Bytes → Bytes
  unfolding join cursor_of itoa ◌+ℤ◌
  seed_text rows cursor =
      let (x, y) = cursor_of cursor in
      (27 ∷ codes "[0m")
      ++ ((27 ∷ codes "[2J")
          ++ ((27 ∷ codes "[H")
              ++ (join rows (13 ∷ 10 ∷ [])
                  ++ ((27 ∷ codes "[0m")
                      ++ (27
                          ∷ (codes "["
                              ++ (itoa (y +ℤ pos 1)
                                  ++ (codes ";" ++ (itoa (x +ℤ pos 1) ++ codes "H")))))))))

  unfoldable pub seeded : List Bytes → List Bytes → ℕ → WatchedPane → WatchedPane
  unfolding deliver_seed seed_text
  seeded rows cursor seq wp = record wp {
    seed_barrier = seq;
    pipe = deliver_seed (seed_text rows cursor) wp.pipe;
  }

  unfoldable pub after_capture :
      Bytes
      → WatchedPane
      → Watcher W
      → Answer (List Bytes × List Bytes × ℕ) × W
      → Answer WatchedPane × Watcher W
  unfolding seeded put
  after_capture id wp w (ok (rows, cursor, seq), t) =
      (ok (seeded rows cursor seq wp), put id (seeded rows cursor seq wp) (record w { tmux = t }))
  after_capture id wp w (failed e, t) = (failed e, record w { tmux = t })
  after_capture id wp w (stopped, t) = (stopped, record w { tmux = t })

  -- `seed`, which returns the pane that it has changed.
  unfoldable pub seed : Bytes → WatchedPane → Watcher W → Answer WatchedPane × Watcher W
  unfolding after_capture
  seed id wp w = after_capture id wp w (
      ctl.capture (codes "capture-pane" ∷ codes "-p" ∷ codes "-e" ∷ codes "-t" ∷ id ∷ [])
        (codes "display-message"
          ∷ codes "-p"
          ∷ codes "-t"
          ∷ id
          ∷ codes "#{cursor_x}\t#{cursor_y}"
          ∷ [])
        w.tmux)

  unfoldable pub after_continue :
      Bytes → WatchedPane → Watcher W → Answer (List Bytes) × W → Watcher W
  unfolding put schedule_resume
  after_continue id wp w (ok lines, t) = record w { tmux = t }
  after_continue id wp w (stopped, t) = record w { tmux = t }
  after_continue id wp w (failed e, t) =
      schedule_resume id (put id (record wp { paused = true }) (record w { tmux = t }))

  unfoldable pub continue_pane : Bytes → WatchedPane → Watcher W → Watcher W
  unfolding put after_continue
  continue_pane id wp w =
      after_continue id wp (put id (record wp { paused = false }) w)
        (ctl.command (flow_words id (codes ":continue")) w.tmux)

  unfoldable pub after_seed : Bytes → Answer WatchedPane × Watcher W → Watcher W
  unfolding continue_pane schedule_resume
  after_seed id (ok wp, w) = continue_pane id wp w
  after_seed id (failed e, w) = schedule_resume id w
  after_seed id (stopped, w) = w

  unfoldable pub resume_paused : Bytes → WatchedPane → Watcher W → Watcher W
  unfolding seed after_seed
  resume_paused id wp w = if wp.paused then after_seed id (seed id wp w) else w

  -- `resumePane`
  unfoldable pub resume_pane : Bytes → Watcher W → Watcher W
  unfolding lookup on_pane resume_paused
  resume_pane id w = on_pane (lookup id w.hub) (resume_paused id) w

  -- `teardown`
  unfoldable pub teardown : Watcher W → Watcher W
  unfolding sweep close_all
  teardown w =
      let (kept, gone) = sweep [] w.hub in
      record w {
        is_done = true;
        registry = [];
        hub = kept;
        closed_panes = w.closed_panes ++ close_all false gone;
      }
