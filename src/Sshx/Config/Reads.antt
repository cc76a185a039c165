-- ===== src/Sshx/Config/Reads.antt =====
-- internal/sshx/config.go: what `parseConfig` makes of the options that ssh prints, in any order and
-- with any other options among them.
pub mod Fields
pub mod Whole
use shevet.Prelude.{
  ◌≡◌, Bool, ◌||◌, Option, List, [], ◌∷◌, ◌++◌, map, if◌then◌else◌, Bytes, codes, bytes_eq,
  trim_space, fields,
}
use shevet.Sshx.Config.{Config, expand_tilde, none_to_empty}

-- An option as ssh prints it: its keyword, a blank, and its value.
abbrev pub Setting : Type 0
Setting = Bytes × Bytes

abbrev pub show_setting : Setting → Bytes
show_setting (key, val) = key ++ b' ' ∷ val

-- The last value that a keyword has, without the white space around it; or none, as the empty text.
abbrev pub last_from : Bytes → Bytes → List Setting → Bytes
last_from key val [] = val
last_from key val ((k, v) ∷ ss) = last_from key (if bytes_eq k key then trim_space v else val) ss

abbrev pub last_value : Bytes → List Setting → Bytes
last_value key ss = last_from key [] ss

-- All values whose keywords pass a test, in order.
abbrev pub all_values : (Bytes → Bool) → List Setting → List Bytes
all_values test [] = []
all_values test ((k, v) ∷ ss) =
    let rest = all_values test ss in if test k then trim_space v ∷ rest else rest

abbrev pub is_hosts_key : Bytes → Bool
is_hosts_key k =
    bytes_eq k (codes "userknownhostsfile") || bytes_eq k (codes "globalknownhostsfile")

abbrev pub is_identity_key : Bytes → Bool
is_identity_key k = bytes_eq k (codes "identityfile")

pub all_fields : List Bytes → List Bytes
all_fields [] = []
all_fields (v ∷ vs) = fields v ++ all_fields vs

abbrev pub or_else : Bytes → Bytes → Bytes
or_else default [] = default
or_else default (c ∷ s) = c ∷ s

-- The configuration that the options say: the last value of a keyword counts, but for the files, which
-- are collected in order and have their tildes expanded; no proxy is `none`.
pub record Says (home : Option Bytes) (alias : Bytes) (ss : List Setting) (c : Config)
    : Type 0 where
  pub host : c.host ≡ alias
  pub host_name : c.host_name ≡ or_else alias (last_value (codes "hostname") ss)
  pub port : c.port ≡ or_else (codes "22") (last_value (codes "port") ss)
  pub user : c.user ≡ last_value (codes "user") ss
  pub identity_files : c.identity_files ≡ map (expand_tilde home) (all_values is_identity_key ss)
  pub identities_only :
      c.identities_only ≡ bytes_eq (last_value (codes "identitiesonly") ss) (codes "yes")
  pub known_hosts_files :
      c.known_hosts_files ≡ map (expand_tilde home) (all_fields (all_values is_hosts_key ss))
  pub checking : c.strict_host_key_checking ≡ last_value (codes "stricthostkeychecking") ss
  pub proxy_jump : c.proxy_jump ≡ none_to_empty (last_value (codes "proxyjump") ss)
  pub proxy_command : c.proxy_command ≡ none_to_empty (last_value (codes "proxycommand") ss)
