-- ===== src/Pipeline.antt =====
-- internal/server/pipeline.go: the render pipeline of one Pane. The goroutine `run` is a function of
-- the events that wake it: a burst of queued ops, the coalescing timer, and a reader that takes an
-- update from a subscriber's channel. Of the output buffer only the bytes are modelled, not the
-- capacity that is kept between wakeups.
pub mod Subscribers
pub mod Views
pub mod Mirror
pub mod Inv
pub mod Burst
pub mod Timer
use shevet.Prelude.{
  ℕ, Bool, true, false, not, ◌&&◌, ◌||◌, Option, none, some, List, [], ◌∷◌, ◌++◌, map,
  if◌then◌else◌, ℤ, pos, eqb_ℤ, Bytes,
}
use shevet.Grid.{Cursor, Size, CellPatch, Grid, cursor_eq, new, diff}
use shevet.Emu.{Emulator}
use Subscribers.{
  RenderUpdate, Subscriber, deliver, sync_update, resize_update, flush_one, any_lagged, is_nil,
  remove, read_by, leave,
}

-- The ops that the methods of a pipeline post.
pub data Op : Type 0 where
  output : Bytes → Op
  resize_to : ℤ → ℤ → Op
  subscribe : ℕ → Op
  unsubscribe : ℕ → Op
  close : Bool → Op

-- What is left of the loop's work: it goes on, it has ended, or it panicked.
pub data Outcome (S : Type 0) : Type 0 where
  running : S → Outcome S
  ended : List Subscriber → Outcome S
  panicked : Outcome S

infixl 5 ◌>>=◌
abbrev pub ◌>>=◌ : {S T : Type 0} → Outcome S → (S → Outcome T) → Outcome T
running s >>= f = f s
ended ss >>= f = ended ss
panicked >>= f = panicked

module _ (E : Emulator) where
  open E use {Term}

  -- The variables of `run`.
  pub record State : Type 0 where
    pub term : Term
    pub shadow : Grid
    pub scratch : Grid
    pub cursor : Cursor
    pub subs : List Subscriber
    pub dirty : Bool
    pub armed : Bool
    pub batch : Bytes

  unfoldable pub initial : ℤ → ℤ → State
  initial w h = record {
    term = E.start w h;
    shadow = new w h;
    scratch = new w h;
    cursor = record { x = pos 0; y = pos 0; hidden = false };
    subs = [];
    dirty = false;
    armed = false;
    batch = [];
  }

  unfoldable pub arm : State → State
  arm s = if not s.armed && not (is_nil s.subs) then record s { armed = true } else s

  -- The second half of `flush`: the subscribers, and the timer for those that still lag.
  unfoldable pub fan_out : Option RenderUpdate → State → State
  unfolding flush_one any_lagged arm sync_update
  fan_out changed s =
      let next = record s {
        subs = map (flush_one changed (sync_update s.shadow s.cursor)) s.subs;
      } in
      if any_lagged next.subs then arm next else next

  -- The first half of `flush` where the state is dirty and `damage` is the difference found.
  unfoldable pub fold_damage : State → Grid → List CellPatch → State
  unfolding fan_out cursor_eq
  fold_damage s screen damage =
      let cur = E.cursor s.term in
      if not (is_nil damage) || not (cursor_eq cur s.cursor)
      then fan_out (some (record { resized = none; damage = some damage; cursor = cur }))
          (record s { dirty = false; shadow = screen; scratch = s.shadow; cursor = cur })
      else fan_out none (record s { dirty = false; scratch = screen })

  -- `Diff` panics on grids of two sizes.
  abbrev pub folded : State → Grid → Option (List CellPatch) → Outcome State
  folded s screen none = panicked
  folded s screen (some damage) = running (fold_damage s screen damage)

  unfoldable pub flush : State → Outcome State
  unfolding fold_damage fan_out
  flush s =
      let screen = E.snapshot s.term s.scratch in
      if s.dirty then folded s screen (diff s.shadow screen) else running (fan_out none s)

  unfoldable pub write_batch : State → State
  unfolding arm
  write_batch s =
      if is_nil s.batch
      then s
      else arm (record s { term = E.write s.batch s.term; batch = []; dirty = true })

  abbrev size_is : Size → ℤ → ℤ → Bool
  size_is z w h = eqb_ℤ z.w w && eqb_ℤ z.h h

  -- The control ops; the batch has been written before.
  unfoldable pub control : Op → State → Outcome State
  unfolding flush deliver sync_update resize_update remove arm leave
  control (output bytes) s = running s
  control (resize_to w h) s =
      let u = resize_update w h in
      if size_is (E.size s.term) w h
      then running s
      else running (
          arm (record s {
            term = E.resize w h s.term;
            shadow = new w h;
            scratch = new w h;
            subs = map (deliver u) s.subs;
            dirty = true;
          }))
  control (subscribe k) s = do
    f ← flush s
    running (record f {
      subs =
          f.subs
          ++ record {
            key = k;
            received = [];
            queue = sync_update f.shadow f.cursor ∷ [];
            exited = false;
            lagged = false;
          }
            ∷ [];
    })
  control (unsubscribe k) s = running (record s { subs = remove k s.subs })
  control (close left) s = ended (map (leave left) s.subs)

  -- The loop over one burst: output ops are coalesced, and written before a control op and at the end.
  unfoldable pub run_burst : List Op → State → Outcome State
  unfolding control write_batch
  run_burst [] s = running (write_batch s)
  run_burst (output bytes ∷ ops) s = run_burst ops (record s { batch = s.batch ++ bytes })
  run_burst (op ∷ ops) s = do next ← control op (write_batch s); run_burst ops next

  -- What wakes the goroutine, and the reads of the other goroutines between its wakeups.
  pub data Event : Type 0 where
    burst : List Op → Event
    timer : Event
    reads : ℕ → Event

  unfoldable pub step : Event → State → Outcome State
  unfolding run_burst flush read_by
  step (burst ops) s = run_burst ops s
  step timer s = if s.armed then flush (record s { armed = false }) else running s
  step (reads k) s = running (record s { subs = read_by k s.subs })

  unfoldable pub run : List Event → State → Outcome State
  unfolding step
  run [] s = running s
  run (e ∷ es) s = do next ← step e s; run es next
