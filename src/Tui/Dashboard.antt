-- ===== src/Tui/Dashboard.antt =====
-- internal/tui/model.go: the dashboard's model, but for its focus and input queues, and what it does
-- with each message. A stream, a connection and a generation are numbers, by which Go's pointers are
-- compared; a command is a value. The maps are shared by the copies of a `Model`, of which only the
-- last is in use.
pub mod Views
pub mod Herd
pub mod Update
pub mod Sound
use shevet.Prelude.{
  ℕ, Bool, true, false, ◌&&◌, Option, none, some, List, [], ◌∷◌, if◌then◌else◌, ℤ, pos, Bytes,
  bytes_eq,
}
use shevet.Prelude.Maps.{Entries, insert}
use shevet.Wire.{Pane}
use shevet.Client.{PaneView, PaneUpdate}
use shevet.Tui.Focus.{PaneRef, Focus}
use shevet.Tui.Keys.{KeyPress}

-- `refPane`
pub record RefPane : Type 0 where
  pub host : Bytes
  pub pane : Pane

-- `refPane.Ref`
abbrev pub pane_ref : RefPane → PaneRef
pane_ref p = record { host = p.host; id = p.pane.id }

-- Go's `==` on references.
pub ref_eq : PaneRef → PaneRef → Bool
unfolding bytes_eq
ref_eq a b = bytes_eq a.host b.host && bytes_eq a.id b.id

-- `paneState`; a nil stream is `none`.
pub record PaneState : Type 0 where
  pub view : PaneView
  pub stream : Option ℕ
  pub err : Option Bytes

abbrev pub Views : Type 0
Views = List (PaneRef × PaneState)

-- The map `views`: a read, a write, and the loop that deletes what a test does not keep.
unfoldable pub find_view : PaneRef → Views → Option PaneState
unfolding ref_eq
find_view r [] = none
find_view r ((k, st) ∷ v) = let later = find_view r v in if ref_eq k r then some st else later

pub put_view : PaneRef → PaneState → Views → Views
unfolding ref_eq
put_view r st [] = (r, st) ∷ []
put_view r st ((k, old) ∷ v) =
    let later = put_view r st v in if ref_eq k r then (k, st) ∷ v else (k, old) ∷ later

pub keep_views : (PaneRef → Bool) → Views → Views
keep_views keeps [] = []
keep_views keeps ((k, st) ∷ v) =
    let rest = keep_views keeps v in if keeps k then (k, st) ∷ rest else rest

abbrev pub is_there : Option PaneState → Bool
is_there none = false
is_there (some st) = true

-- `Server`
pub record Server : Type 0 where
  pub alias : Bytes
  pub conn : ℕ

-- `Model`; `input` is its focus with the input queues.
pub record Model : Type 0 where
  pub servers : List Server
  pub conns : Entries ℕ
  pub width : ℤ
  pub height : ℤ
  pub panes : List RefPane
  pub loaded : Bool
  pub err : Option Bytes
  pub views : Views
  pub selected : ℕ
  pub input : Focus

-- The connections of `New`: a later alias replaces an earlier one.
unfoldable pub conns_of : List Server → Entries ℕ → Entries ℕ
unfolding insert
conns_of [] conns = conns
conns_of (s ∷ ss) conns = conns_of ss (insert s.alias s.conn conns)

-- `New`
unfoldable pub new_model : List Server → Model
unfolding conns_of
new_model servers = record {
  servers = servers;
  conns = conns_of servers [];
  width = pos 0;
  height = pos 0;
  panes = [];
  loaded = false;
  err = none;
  views = [];
  selected = 0;
  input = record { focus = none; inputs = []; input_errs = []; cancelled = []; next_gen = 0 };
}

-- The commands: `fetchPanesCmd`, `watchPaneCmd`, `recvCmd`, `forwardInputCmd` and `tea.Quit`.
pub data Cmd : Type 0 where
  fetch_panes : List Server → Cmd
  watch_pane : Option ℕ → PaneRef → Cmd
  recv_next : PaneRef → ℕ → Cmd
  forward_input : (conn : Option ℕ) → (host : Bytes) → (gen : ℕ) → Cmd
  quit : Cmd

-- The messages of `Update`.
pub data Msg : Type 0 where
  window_size : ℤ → ℤ → Msg
  key_press : KeyPress → Msg
  panes_loaded : List RefPane → Msg
  load_failed : Bytes → Msg
  watch_started : PaneRef → ℕ → Msg
  pane_update : PaneRef → ℕ → PaneUpdate → Msg
  watch_failed : PaneRef → Option ℕ → Bytes → Msg
  input_failed_msg : (host : Bytes) → (gen : ℕ) → (err : Bytes) → Msg

-- Whether a Pane has the focus.
abbrev pub focus_is : PaneRef → Option PaneRef → Bool
focus_is ref none = false
focus_is ref (some f) = ref_eq f ref
