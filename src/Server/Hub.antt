-- ===== src/Server/Hub.antt =====
-- internal/server/watcher.go and registry.go: the panes that the Server knows. A `Pipe` is a
-- pipeline as those that post to it see it: the ops that it accepted, how many of them its loop has
-- yet to take, and whether the loop has ended.
use shevet.Prelude.{
  ℕ, ◌+◌, ◌-◌, min, Bool, true, false, ◌||◌, Option, none, some, List, [], ◌∷◌, ◌++◌, ltb,
  if◌then◌else◌, ℤ, Bytes, bytes_eq,
}
use shevet.Prelude.Maps.{Entries, lookup, insert}
use shevet.Pipeline.{Op, output, close}
use shevet.Wire.{Pane}

pub record Pipe : Type 0 where
  pub posted : List Op
  pub queued : ℕ
  pub is_done : Bool

-- `opsQueue`
abbrev pub ops_queue : ℕ
ops_queue = 64

-- `post`: the call waits for room, which the loop makes by taking an op.
unfoldable pub post : Op → Pipe → Pipe
post op p =
    if p.is_done
    then p
    else record p { posted = p.posted ++ op ∷ []; queued = min ops_queue (p.queued + 1) }

-- `output`: the bytes are accepted, or the queue is full.
unfoldable pub offer : Bytes → Pipe → Bool × Pipe
offer data' p =
    if p.is_done
    then (true, p)
    else if ltb p.queued ops_queue
    then (true, record p { posted = p.posted ++ output data' ∷ []; queued = p.queued + 1 })
    else (false, p)

-- `deliverSeed`
unfoldable pub deliver_seed : Bytes → Pipe → Pipe
unfolding post
deliver_seed data' p = post (output data') p

-- `close`, which waits for the loop's end.
unfoldable pub close_pipe : Bool → Pipe → Pipe
unfolding post
close_pipe exited p = record (post (close exited) p) { is_done = true; queued = 0 }

-- `watchedPane`
pub record WatchedPane : Type 0 where
  pub pipe : Pipe
  pub width : ℤ
  pub height : ℤ
  pub seed_barrier : ℕ
  pub paused : Bool

unfoldable pub take_from : Bytes → Option WatchedPane → Entries WatchedPane → Entries WatchedPane
unfolding insert
take_from id none hub = hub
take_from id (some wp) hub =
    insert id (record wp { pipe = record wp.pipe { queued = wp.pipe.queued - 1 } }) hub

-- The loop of a pane's pipeline takes an op from its queue, if there is one.
unfoldable pub take_op : Bytes → Entries WatchedPane → Entries WatchedPane
unfolding take_from lookup
take_op id hub = take_from id (lookup id hub) hub

-- A pane at its first reconcile.
unfoldable pub new_pane : ℤ → ℤ → WatchedPane
new_pane w h = record {
  pipe = record { posted = []; queued = 0; is_done = false };
  width = w;
  height = h;
  seed_barrier = 0;
  paused = false;
}

-- `paneHub`
abbrev pub Hub : Type 0
Hub = Entries WatchedPane

abbrev pub has_id : List Pane → Bytes → Bool
has_id [] id = false
has_id (p ∷ ps) id = bytes_eq p.id id || has_id ps id

-- `sweep`: the panes that stay, and those that are gone.
unfoldable pub sweep : List Pane → Hub → Hub × List WatchedPane
unfolding bytes_eq
sweep keep [] = ([], [])
sweep keep ((id, wp) ∷ hub) =
    let (kept, gone) = sweep keep hub in
    if has_id keep id then ((id, wp) ∷ kept, gone) else (kept, wp ∷ gone)

-- Every pane's pipeline is closed in turn.
unfoldable pub close_all : Bool → List WatchedPane → List WatchedPane
unfolding close_pipe
close_all exited [] = []
close_all exited (wp ∷ wps) = record wp { pipe = close_pipe exited wp.pipe } ∷ close_all exited wps
