-- ===== src/Tmuxctl/Channel.antt =====
-- internal/tmuxctl/client.go: the reply channel. `answered` is the log of what was sent to the
-- waiting commands, each named by a number; `queue` holds the events in their order, as the reader
-- enqueues them. Writing a line to tmux is a state-passing function, with an error text or none.
pub mod Matching
pub mod Routing
use shevet.Prelude.{
  ℕ, suc, ◌-◌, Bool, true, false, not, Option, none, some, List, [], ◌∷◌, ◌++◌, map, if◌then◌else◌,
  length, take, Bytes, codes, bytes_eq, trim_space, join,
}
use shevet.Tmuxctl.Parse.{Reply, Event, Parser, output, feed}
use shevet.Tmuxctl.Quote.{command_line}

-- `pendingReply`
pub record Pending : Type 0 where
  pub ch : ℕ
  pub cont : Bool

pub record Client : Type 0 where
  pub pending : List Pending
  pub guard_seen : Bool
  pub guard_err : Bytes
  pub answered : List (ℕ × Reply)
  pub queue : List Event

unfoldable pub new_client : Client
new_client = record { pending = []; guard_seen = false; guard_err = []; answered = []; queue = [] }

abbrev pub slot : Bool → ℕ → Pending
slot cont ch = record { ch = ch; cont = cont }

-- The slots of a sequence: all but the first continue it.
abbrev pub slots : List ℕ → List Pending
slots [] = []
slots (ch ∷ chs) = slot false ch ∷ map (slot true) chs

unfoldable pub enqueue : List ℕ → Client → Client
enqueue chs c = record c { pending = c.pending ++ slots chs }

unfoldable pub rollback : List ℕ → Client → Client
rollback chs c = record c { pending = take (length c.pending - length chs) c.pending }

-- The part of `CommandsSeq` under the lock: the slots are taken and the line is written, and given
-- back if that fails. The channels `chs` are new, one for each command.
module _ {W : Type 0} (write : Bytes → W → Option Bytes × W) where
  unfoldable pub after_write : List ℕ → Client → Option Bytes × W → Option Bytes × Client × W
  unfolding rollback
  after_write chs c (none, w) = (none, c, w)
  after_write chs c (some e, w) = (some (codes "tmuxctl: send commands: " ++ e), rollback chs c, w)

  unfoldable pub send_commands : List (List Bytes) → List ℕ → Client → W → Option Bytes × Client × W
  unfolding enqueue after_write command_line
  send_commands [] chs c w = (none, c, w)
  send_commands (cmd ∷ cmds) chs c w =
      after_write chs (enqueue chs c) (write (command_line (cmd ∷ cmds)) w)

-- What a waiting command sees on a channel: a reply, the stream's end, or its own cancellation.
pub data Wake : Type 0 where
  replied : Reply → Wake
  ended : Bytes → Wake
  cancelled : Bytes → Wake

pub data Outcome : Type 0 where
  bodies : List (List Bytes) → ℕ → Outcome
  failed : Bytes → Outcome

-- The loop of `CommandsSeq` over the channels.
unfoldable pub collect_bodies : List Wake → List (List Bytes) → ℕ → Outcome
unfolding join
collect_bodies [] got first_seq = bodies got first_seq
collect_bodies (replied r ∷ ws) got first_seq =
    let rest = collect_bodies ws (got ++ r.lines ∷ []) first_seq in
    if r.is_err then failed (codes "tmuxctl: tmux: " ++ join r.lines (codes " ")) else rest
collect_bodies (ended e ∷ ws) got first_seq = failed e
collect_bodies (cancelled e ∷ ws) got first_seq = failed e

unfoldable pub first_position : List Wake → ℕ
first_position (replied r ∷ ws) = r.seq
first_position _ = 0

-- What `CommandsSeq` returns; `first_seq` is that of the first reply.
unfoldable pub collect : List Wake → Outcome
unfolding collect_bodies first_position
collect ws = collect_bodies ws [] (first_position ws)

unfoldable pub aborted : Reply
aborted = record { lines = codes "tmux aborted the command sequence" ∷ []; is_err = true; seq = 0 }

unfoldable pub answer : Reply → ℕ → Client → Client
answer r ch c = record c { answered = c.answered ++ (ch, r) ∷ [] }

-- The purge: the continuations at the head are dropped, each with its own answer.
unfoldable pub purge : List Pending → Client → Client
unfolding aborted answer
purge [] c = record c { pending = [] }
purge (p ∷ ps) c =
    let rest = purge ps (answer aborted p.ch c) in
    if p.cont then rest else record c { pending = p ∷ ps }

unfoldable pub guard : Reply → Client → Client
unfolding join
guard r c =
    let seen = record c { guard_seen = true } in
    if r.is_err then record seen { guard_err = join r.lines (codes " ") } else seen

unfoldable pub route : Reply → List Pending → Client → Client
unfolding answer purge
route r [] c = c
route r (p ∷ ps) c =
    let got = record (answer r p.ch c) { pending = ps } in if r.is_err then purge ps got else got

-- `completeReply`
unfoldable pub complete_reply : Reply → Client → Client
unfolding guard route
complete_reply r c = if c.guard_seen then route r c.pending c else guard r c

-- `enqueueEvent`, which the loop of `readLoop` gives the position of an output.
unfoldable pub stamp : ℕ → Event → Event
stamp seq (output pane data' _) = output pane data' seq
stamp seq ev = ev

unfoldable pub enqueue_event : ℕ → Option Event → Client → Client
unfolding stamp
enqueue_event seq none c = c
enqueue_event seq (some ev) c = record c { queue = c.queue ++ stamp seq ev ∷ [] }

unfoldable pub complete : ℕ → Option Reply → Client → Client
unfolding complete_reply
complete seq none c = c
complete seq (some r) c = complete_reply (record r { seq = seq }) c

-- A round of `readLoop`, and the loop over the lines, each at its position.
unfoldable pub read_line : ℕ → Bytes → Parser × Client → Parser × Client
unfolding feed complete enqueue_event
read_line seq line (p, c) =
    let (q, ev, done) = feed p line in (q, enqueue_event seq ev (complete seq done c))

unfoldable pub read_lines : ℕ → List Bytes → Parser × Client → Parser × Client
unfolding read_line
read_lines seq [] st = st
read_lines seq (line ∷ ls) st = read_lines (suc seq) ls (read_line (suc seq) line st)

-- `exitError`, by the errors of the scanner and of the process, and what tmux wrote to stderr.
unfoldable pub exit_error : Option Bytes → Bytes → Option Bytes → Bytes → Bytes
unfolding trim_space bytes_eq
exit_error scan_err guard_err wait_err stderr =
    let msg = trim_space stderr in
    elim (scan_err) [
      | some e ↦ codes "tmuxctl: control stream: " ++ e
      | none ↦
          if not (bytes_eq guard_err [])
          then codes "tmuxctl: tmux: " ++ guard_err
          else elim wait_err [
            | some e ↦
                if not (bytes_eq msg [])
                then codes "tmuxctl: tmux exited: " ++ (e ++ (codes ": " ++ msg))
                else codes "tmuxctl: tmux exited: " ++ e
            | none ↦
                if not (bytes_eq msg [])
                then codes "tmuxctl: tmux exited: " ++ msg
                else codes "tmuxctl: control stream ended"
          ]
    ]

-- `pumpEvents`: a round takes the whole queue and delivers it in order, or drops it when the client
-- was closed; it is over when the queue is empty and the stream has ended.
pub record Pump : Type 0 where
  pub waiting : List Event
  pub delivered : List Event
  pub has_ended : Bool
  pub closed : Bool

unfoldable pub pump_round : Bool → Pump → Pump
pump_round quit p = elim p.waiting [
  | [] ↦ if p.has_ended then record p { closed = true } else p
  | _ ∷ _ ↦ record p {
    waiting = [];
    delivered = if quit then p.delivered else p.delivered ++ p.waiting;
  }
]
