-- ===== src/Tui/Servers.antt =====
-- internal/tui/model.go: the connections of a dashboard, and the Herd that is fetched over them.
pub mod Distinct
pub mod Fetched
use shevet.Prelude.{
  ℕ, Bool, false, ◌||◌, Option, none, some, List, [], ◌∷◌, ◌++◌, if◌then◌else◌, Bytes, codes,
  bytes_eq,
}
use shevet.Wire.{Pane}
use shevet.Tui.Dashboard.{RefPane, Server, Msg, panes_loaded, load_failed}

-- The error of `NewServers`.
pub data AliasError : Type 0 where
  empty_alias : AliasError
  duplicate_alias : Bytes → AliasError

abbrev pub is_in : Bytes → List Bytes → Bool
is_in a [] = false
is_in a (b ∷ bs) = bytes_eq b a || is_in a bs

-- The loop of `NewServers`, with the aliases that it has seen.
unfoldable pub check_aliases : List Bytes → List Server → Option AliasError
unfolding bytes_eq
check_aliases seen [] = none
check_aliases seen (s ∷ ss) =
    let rest = check_aliases (s.alias ∷ seen) ss in
    if bytes_eq s.alias []
    then some empty_alias
    else if is_in s.alias seen
    then some (duplicate_alias s.alias)
    else rest

-- `NewServers`: the error, or the servers as they are.
pub data Checked : Type 0 where
  refused : AliasError → Checked
  accepted : List Server → Checked

unfoldable pub new_servers : List Server → Checked
unfolding check_aliases
new_servers servers = elim (check_aliases [] servers) [
  | none ↦ accepted servers
  | some e ↦ refused e
]

-- What a Server answers to `ListPanes`.
pub data Listing : Type 0 where
  failed : Bytes → Listing
  listed : List Pane → Listing

unfoldable pub tag : Bytes → List Pane → List RefPane
tag host [] = []
tag host (p ∷ ps) = record { host = host; pane = p } ∷ tag host ps

-- `fetchPanesCmd`, over what each connection answers.
unfoldable pub fetch_from : (ℕ → Listing) → List Server → List RefPane → Msg
unfolding tag
fetch_from answer [] all = panes_loaded all
fetch_from answer (s ∷ ss) all = elim (answer s.conn) [
  | failed e ↦ load_failed (codes "host " ++ (s.alias ++ (codes ": " ++ e)))
  | listed panes ↦ fetch_from answer ss (all ++ tag s.alias panes)
]

unfoldable pub fetch_panes_cmd : (ℕ → Listing) → List Server → Msg
unfolding fetch_from
fetch_panes_cmd answer servers = fetch_from answer servers []
