-- ===== src/Pipeline/Subscribers.antt =====
-- internal/server/pipeline.go: render updates, subscribers, and what is done to one of them.
use shevet.Prelude.{
  ℕ, Bool, true, false, ◌||◌, Option, none, some, List, [], ◌∷◌, ◌++◌, ltb, ◌==◌, if◌then◌else◌,
  length, ℤ, pos,
}
use shevet.Grid.{Cursor, Size, CellPatch, Grid, snapshot}

-- `renderUpdate`
pub record RenderUpdate : Type 0 where
  pub resized : Option Size
  pub damage : Option (List CellPatch)
  pub cursor : Cursor

-- `subscriber`: `queue` is what its channel holds, `received` what its reader has taken from it.
pub record Subscriber : Type 0 where
  pub key : ℕ
  pub received : List RenderUpdate
  pub queue : List RenderUpdate
  pub exited : Bool
  pub lagged : Bool

-- `subscriberBuffer`
abbrev pub subscriber_buffer : ℕ
subscriber_buffer = 64

-- A send that does not block, on a channel with room or without.
unfoldable pub deliver : RenderUpdate → Subscriber → Subscriber
deliver u s =
    if ltb (length s.queue) subscriber_buffer
    then record s { queue = s.queue ++ u ∷ [] }
    else record s { lagged = true }

-- `syncUpdate`
unfoldable pub sync_update : Grid → Cursor → RenderUpdate
sync_update shadow cursor = record {
  resized = some (record { w = pos shadow.w; h = pos shadow.h });
  damage = some (snapshot shadow);
  cursor = cursor;
}

-- The update of a resize; its zero cursor is not read.
unfoldable pub resize_update : ℤ → ℤ → RenderUpdate
resize_update w h = record {
  resized = some (record { w = w; h = h });
  damage = none;
  cursor = record { x = pos 0; y = pos 0; hidden = false };
}

-- A lagged subscriber gets a full resync when its channel has room.
unfoldable pub catch_up : RenderUpdate → Subscriber → Subscriber
catch_up sync s =
    if ltb (length s.queue) subscriber_buffer
    then record s { queue = s.queue ++ sync ∷ []; lagged = false }
    else s

abbrev pub deliver_changed : Option RenderUpdate → Subscriber → Subscriber
deliver_changed none s = s
deliver_changed (some u) s = deliver u s

-- One round of the loop of `flush` over the subscribers.
unfoldable pub flush_one : Option RenderUpdate → RenderUpdate → Subscriber → Subscriber
unfolding catch_up deliver
flush_one changed sync s = if s.lagged then catch_up sync s else deliver_changed changed s

unfoldable pub any_lagged : List Subscriber → Bool
any_lagged [] = false
any_lagged (s ∷ ss) = s.lagged || any_lagged ss

abbrev pub is_nil {ℓ} : {A : Type ℓ} → List A → Bool
is_nil [] = true
is_nil (x ∷ xs) = false

unfoldable pub remove : ℕ → List Subscriber → List Subscriber
remove k [] = []
remove k (s ∷ ss) = if s.key == k then ss else s ∷ remove k ss

-- A reader takes the oldest update of its channel.
abbrev pub take_first : Subscriber → List RenderUpdate → Subscriber
take_first s [] = s
take_first s (u ∷ us) = record s { received = s.received ++ u ∷ []; queue = us }

unfoldable pub take_update : Subscriber → Subscriber
take_update s = take_first s s.queue

unfoldable pub read_by : ℕ → List Subscriber → List Subscriber
unfolding take_update
read_by k [] = []
read_by k (s ∷ ss) = (if s.key == k then take_update s else s) ∷ read_by k ss

-- The end of a subscriber: its channel closes behind the flag that says why.
unfoldable pub leave : Bool → Subscriber → Subscriber
leave left s = record s { exited = left }
