-- ===== src/Examples/Dashboard.antt =====
-- Tests and instances for internal/tui: keys, messages, servers and input.
use shevet.Prelude.{
  ℕ, ◌-◌, ◌≤◌, ◌≡◌, refl, ◌↔◌, Bool, true, false, none, some, List, [], ◌∷◌, ◌++◌, arith, leb,
  get_elem?, All, pos, Bytes, codes,
}
use shevet.Prelude.Maps.{lookup}
use shevet.Client.{PaneUpdate, zero_update, new_view}
use shevet.Inject.Runs.{split}
use shevet.Inject.Delivery.{Screen, tmux}
use shevet.Server.Hub.{Hub, new_pane}
use shevet.Server.Service.{send_input, closed}
use shevet.Tui.Focus.{PaneRef}
use shevet.Tui.Keys.{KeyCodes, KeyPress, encode_key}
use shevet.Tui.Forward.{forward}
use shevet.Tui.Forward.Typing.{keep_event, key_turns, concat, runs, forward-types}
use shevet.Tui.Dashboard.{
  RefPane, pane_ref, PaneState, Server, Model, Msg, new_model, window_size, key_press, panes_loaded,
  load_failed, watch_started, pane_update, watch_failed, find_view,
}
use shevet.Tui.Dashboard.Herd.{apply_herd, is_live, selected_ref}
use shevet.Tui.Dashboard.Herd.Follow.{apply_herd-follows}
use shevet.Tui.Dashboard.Sound.{Sound}
use shevet.Tui.Dashboard.Update.{update_all}
use shevet.Tui.Dashboard.Update.Keeps.{update_all-new_model-Sound}
use shevet.Tui.Dashboard.Update.Streams.{apply_updates, updates_of}
use shevet.Tui.Dashboard.Update.Shows.{update_all-shows}
use shevet.Tui.Servers.{accepted, new_servers, Listing, listed, fetch_panes_cmd}
use shevet.Tui.Servers.Distinct.{Distinct, HasAlias, aliases, new_servers-accepted}
use shevet.Tui.Servers.Fetched.{refs, fetch_panes_cmd-Distinct}

-- The codes of a terminal library: those of the C0 bytes, and numbers behind Unicode.
abbrev tea : KeyCodes
tea = record {
  enter_code = 13;
  tab_code = 9;
  escape_code = 27;
  backspace_code = 127;
  up_code = 1114113;
  down_code = 1114114;
  right_code = 1114115;
  left_code = 1114116;
  home_code = 1114117;
  end_code = 1114118;
  insert_code = 1114119;
  delete_code = 1114120;
  pg_up_code = 1114121;
  pg_down_code = 1114122;
  extended = 1114112;
  is_print = λ c. leb 32 c;
}

abbrev press : ℕ → Bytes → Bool → KeyPress
press code text ctrl = record { code = code; text = text; alt = false; ctrl = ctrl; name = text }

tests_encode_key :
    (encode_key tea (press b'c' (codes "c") true) ≡ 3 ∷ [])
    × (encode_key tea (press 1114121 [] false) ≡ 0x1b ∷ codes "[5~")
    × (encode_key tea (press 233 [] false) ≡ 0xc3 ∷ 0xa9 ∷ [])
    × (encode_key tea (press 1114200 [] false) ≡ [])
unfolding encode_key
tests_encode_key = (refl, refl, refl, refl)

-- Two hosts, whose panes have the same ids.
abbrev servers : List Server
servers = record { alias = codes "web"; conn = 0 } ∷ record { alias = codes "db"; conn = 1 } ∷ []

abbrev listing : ℕ → Listing
listing conn = listed (
    record { id = codes "%0"; title = codes "vi" }
    ∷ record { id = codes "%1"; title = codes "sh" }
    ∷ [])

web_and_db : new_servers servers ≡ accepted servers
web_and_db = unfold new_servers in refl

new_servers-accepted_example :
    (new_servers servers ≡ accepted servers) ↔ (All HasAlias servers × Distinct (aliases servers))
new_servers-accepted_example = new_servers-accepted servers

abbrev on_host : Bytes → Bytes → Bytes → RefPane
on_host host id title = record { host = host; pane = record { id = id; title = title } }

abbrev fetched : List RefPane
fetched =
    on_host (codes "web") (codes "%0") (codes "vi")
    ∷ on_host (codes "web") (codes "%1") (codes "sh")
    ∷ on_host (codes "db") (codes "%0") (codes "vi")
    ∷ on_host (codes "db") (codes "%1") (codes "sh")
    ∷ []

fetch_panes_cmd-Distinct_example : Distinct (refs fetched)
fetch_panes_cmd-Distinct_example =
    fetch_panes_cmd-Distinct listing servers fetched web_and_db (λ conn. distinct)
      (unfold fetch_panes_cmd in refl)
  where
    differ : codes "%0" ≡ codes "%1" → ⊥
    differ p = absurd (ground arith)

    distinct : Distinct {A = Bytes} (codes "%0" ∷ codes "%1" ∷ [])
    distinct = ((differ, tt), (tt, tt))

abbrev db_shell : PaneRef
db_shell = record { host = codes "db"; id = codes "%1" }

-- The Herd is loaded, the last Pane is sized and focused, a key is typed, and its stream fails.
abbrev messages : List Msg
messages =
    window_size (pos 100) (pos 30)
    ∷ panes_loaded fetched
    ∷ watch_started db_shell 7
    ∷ pane_update db_shell 7
        (record zero_update { resized = some (record { w = pos 80; h = pos 24 }) })
    ∷ key_press (press 0 (codes "l") false)
    ∷ key_press (press 0 (codes "j") false)
    ∷ key_press (press 0 (codes "i") false)
    ∷ key_press (press b'x' (codes "x") false)
    ∷ watch_failed db_shell (some 7) (codes "gone")
    ∷ []

update_all-new_model-Sound_example : Sound (update_all tea messages (new_model servers))
update_all-new_model-Sound_example = update_all-new_model-Sound tea servers messages

-- The dashboard with one Pane that is watched on stream 7.
abbrev watched : PaneState
watched = record { view = new_view; stream = some 7; err = none }

abbrev one_pane : Model
one_pane = record (new_model servers) {
  panes = on_host (codes "db") (codes "%1") (codes "sh") ∷ [];
  views = (db_shell, watched) ∷ [];
}

abbrev sized : PaneUpdate
sized = record zero_update { resized = some (record { w = pos 80; h = pos 24 }) }

-- An update of another stream stands between two of the Pane's.
abbrev mixed : List Msg
mixed =
    pane_update db_shell 7 sized
    ∷ pane_update db_shell 3 (record zero_update { exited = true })
    ∷ load_failed (codes "timeout")
    ∷ pane_update db_shell 7 (record zero_update { damage = some [] })
    ∷ []

update_all-shows_example :
    find_view db_shell (update_all tea mixed one_pane).views
    ≡ some (record watched { view = apply_updates (updates_of db_shell 7 mixed) new_view })
update_all-shows_example =
    update_all-shows tea db_shell 7 mixed watched one_pane (unfold find_view in refl) refl refl
      (tt, (tt, (tt, (tt, tt))))

apply_herd-follows_example :
    (is_live (selected_ref one_pane) fetched ≡ true
      → (p : RefPane) × (get_elem? fetched (apply_herd fetched one_pane).0.selected ≡ some p)
        × (pane_ref p ≡ selected_ref one_pane))
    × (is_live (selected_ref one_pane) fetched ≡ false
        → (apply_herd fetched one_pane).0.selected ≡ 0)
apply_herd-follows_example = apply_herd-follows fetched one_pane

-- Three key presses, one of them without bytes, on their way into a pane.
abbrev presses : List Bytes
presses = codes "ls" ∷ [] ∷ (13 ∷ []) ∷ []

abbrev shell_hub : Screen → Hub
shell_hub t = (codes "%1", new_pane (pos 80) (pos 24)) ∷ []

forward-types_example :
    let sent = forward keep_event (key_turns (codes "%1") presses) [] in
    let served =
      send_input
        (some (tmux (codes "gone") (codes "%1")))
        none
        shell_hub
        (λ t. t)
        closed
        sent.1
        (record { received = []; left = 5 }) in
    (sent.0 ≡ none)
    × (served.0 ≡ none)
    × (served.1.tmux ≡ record { received = [] ++ concat presses; left = 5 - runs presses })
forward-types_example =
    forward-types (codes "gone") (codes "%1") shell_hub (λ t. unfold lookup in refl) none presses []
      5 enough
  where
    enough : runs presses ≤ 5
    enough = unfold runs split in omega arith
