-- ===== src/Tui/Focus.antt =====
-- internal/tui/model.go: the focus and the input queues of the dashboard. A generation of input
-- plumbing is a number and the queue that its forwarding command drains; the focus is `none` for the
-- zero PaneRef. The messages name generations, so that what a retired one reports is told apart.
pub mod Passthrough
pub mod Narrows
use shevet.Prelude.{
  ℕ, ◌+◌, Option, none, some, List, [], ◌∷◌, ◌++◌, ltb, ◌==◌, if◌then◌else◌, length, Bytes, codes,
  bytes_eq,
}
use shevet.Prelude.Maps.{Entries, lookup, insert, delete}
use shevet.Grid.{Size}

-- `herd.PaneRef`
pub record PaneRef : Type 0 where
  pub host : Bytes
  pub id : Bytes

-- `inputReq`: one of its three kinds.
pub data InputReq : Type 0 where
  send_keys : (pane keys : Bytes) → InputReq
  send_resize : (pane : Bytes) → Size → InputReq
  send_restore : (pane : Bytes) → InputReq

-- `inputConn`
pub record InputConn : Type 0 where
  pub gen : ℕ
  pub queue : List InputReq

-- `forwardBuffer`
abbrev pub forward_buffer : ℕ
forward_buffer = 256

-- The part of `Model` that these functions read and change; `cancelled` are the generations that
-- were retired, `next_gen` numbers the next.
pub record Focus : Type 0 where
  pub focus : Option PaneRef
  pub inputs : Entries InputConn
  pub input_errs : Entries Bytes
  pub cancelled : List ℕ
  pub next_gen : ℕ

-- `errStalledInput`
abbrev pub stalled_input : Bytes
stalled_input = codes "input stream stalled; focus a Pane to reconnect"

-- `send`: the queue with the request, or none if it is full.
unfoldable pub send : InputReq → InputConn → Option InputConn
send req c =
    if ltb (length c.queue) forward_buffer
    then some (record c { queue = c.queue ++ req ∷ [] })
    else none

unfoldable pub retire : Option InputConn → Bytes → Focus → Focus
unfolding delete
retire none host m = m
retire (some c) host m = record m {
  cancelled = m.cancelled ++ c.gen ∷ [];
  inputs = delete host m.inputs;
}

abbrev pub leave_host : Bytes → Option PaneRef → Option PaneRef
leave_host host none = none
leave_host host (some ref) = if bytes_eq ref.host host then none else some ref

-- `dropInput`
unfoldable pub drop_input : Bytes → Bytes → Focus → Focus
unfolding retire lookup insert bytes_eq
drop_input host err m =
    let failed = record m { input_errs = insert host err m.input_errs } in
    let gone = retire (lookup host m.inputs) host failed in
    record gone { focus = leave_host host m.focus }

-- A request goes to the host's queue, which stalls if it is full; without a queue nothing is done.
unfoldable pub sent : Bytes → Option InputConn → Focus → Focus
unfolding drop_input insert
sent host none m = drop_input host stalled_input m
sent host (some c) m = record m { inputs = insert host c m.inputs }

unfoldable pub request : Bytes → InputReq → Option InputConn → Focus → Focus
unfolding sent send
request host req none m = m
request host req (some c) m = sent host (send req c) m

-- `queueResize`
unfoldable pub queue_resize : PaneRef → Size → Focus → Focus
unfolding request lookup
queue_resize ref size m = request ref.host (send_resize ref.id size) (lookup ref.host m.inputs) m

-- `unfocus`: the grid, whether the restore was queued or the stream was dropped.
unfoldable pub unfocus_from : Option PaneRef → Focus → Focus
unfolding request lookup
unfocus_from none m = m
unfocus_from (some ref) m =
    record (request ref.host (send_restore ref.id) (lookup ref.host m.inputs) m) { focus = none }

unfoldable pub unfocus : Focus → Focus
unfolding unfocus_from
unfocus m = unfocus_from m.focus m

-- The part of `handleKey` in passthrough, on the bytes of a key.
unfoldable pub type_into : Option PaneRef → Bytes → Focus → Focus
unfolding request lookup
type_into none data' m = m
type_into (some ref) [] m = m
type_into (some ref) (b ∷ data') m =
    request ref.host (send_keys ref.id (b ∷ data')) (lookup ref.host m.inputs) m

-- The part of `focusSelected` behind its guards: the queue is opened if there is none.
unfoldable pub open_input : Bytes → Option InputConn → Focus → InputConn × Focus
unfolding delete insert
open_input host (some c) m = (c, m)
open_input host none m =
    let c : InputConn = record { gen = m.next_gen; queue = [] } in
    (
      c,
      record m {
        input_errs = delete host m.input_errs;
        inputs = insert host c m.inputs;
        next_gen = m.next_gen + 1;
      },
    )

unfoldable pub focus_on : PaneRef → Size → Focus → Focus
unfolding open_input sent send lookup
focus_on ref viewport m =
    let (c, opened) =
      open_input ref.host (lookup ref.host m.inputs) (record m { focus = some ref }) in
    sent ref.host (send (send_resize ref.id viewport) c) opened

-- `inputFailedMsg`: only the generation that is there is dropped.
unfoldable pub input_failed_of : Option InputConn → Bytes → ℕ → Bytes → Focus → Focus
unfolding drop_input
input_failed_of none host gen err m = m
input_failed_of (some c) host gen err m = if c.gen == gen then drop_input host err m else m

unfoldable pub input_failed : Bytes → ℕ → Bytes → Focus → Focus
unfolding input_failed_of lookup
input_failed host gen err m = input_failed_of (lookup host m.inputs) host gen err m
