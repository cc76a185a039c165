-- ===== src/Sshx/Config.antt =====
-- internal/sshx/config.go: the effective configuration of a Host, as `ssh -G` prints it. White space
-- is the ASCII part of Go's. The home directory is `none` where `os.UserHomeDir` fails, and running
-- ssh is a function of its arguments.
pub mod Reads
pub mod Dials
use shevet.Prelude.{
  ℕ, ◌+◌, Bool, true, false, not, ◌&&◌, ◌||◌, Option, none, some, List, [], ◌∷◌, ◌++◌, map, leb,
  ◌==◌, if◌then◌else◌, Bytes, codes, bytes_eq, strip_prefix, has_prefix, trim_prefix, cut_at,
  trim_space, fields, join,
}
use mathlib.Core.List.{reverse}
use shevet.Prelude.Scan.{scan_lines}

-- `Config`
pub record Config : Type 0 where
  pub host : Bytes
  pub host_name : Bytes
  pub port : Bytes
  pub user : Bytes
  pub identity_files : List Bytes
  pub identities_only : Bool
  pub known_hosts_files : List Bytes
  pub strict_host_key_checking : Bytes
  pub proxy_jump : Bytes
  pub proxy_command : Bytes

abbrev to_lower_byte : ℕ → ℕ
to_lower_byte c = if leb b'A' c && leb c b'Z' then c + 32 else c

-- `strings.ToLower` on ASCII; no other letter has one of no, off as its lower case.
unfoldable pub to_lower : Bytes → Bytes
to_lower s = map to_lower_byte s

-- `strict`
unfoldable pub strict : Config → Bool
unfolding to_lower bytes_eq
strict c =
    let s = to_lower c.strict_host_key_checking in
    not (bytes_eq s (codes "no") || bytes_eq s (codes "off"))

pub data Unreachable : Type 0 where
  jump_set : (jump host : Bytes) → Unreachable
  command_set : (host : Bytes) → Unreachable

-- `checkDirectlyReachable`
unfoldable pub check_directly_reachable : Config → Option Unreachable
unfolding bytes_eq
check_directly_reachable c =
    if not (bytes_eq c.proxy_jump [])
    then some (jump_set c.proxy_jump c.host)
    else if not (bytes_eq c.proxy_command [])
    then some (command_set c.host)
    else none

-- `noneToEmpty`
unfoldable pub none_to_empty : Bytes → Bytes
unfolding bytes_eq
none_to_empty val = if bytes_eq val (codes "none") then [] else val

-- The elements of a path, without empty ones and single dots; two dots take the one before away.
-- The elements that stand are in reverse order.
abbrev is_root : List Bytes → Bool
is_root [] = true
is_root (e ∷ es) = bytes_eq e (codes "..")

abbrev tail : List Bytes → List Bytes
tail [] = []
tail (e ∷ es) = es

unfoldable pub push_element : Bool → List Bytes → Bytes → List Bytes
unfolding bytes_eq
push_element rooted es e =
    if bytes_eq e [] || bytes_eq e (codes ".")
    then es
    else if not (bytes_eq e (codes ".."))
    then e ∷ es
    else if not (is_root es)
    then tail es
    else if rooted
    then es
    else e ∷ es

unfoldable pub elements_from : Bool → Bytes → List Bytes → Bytes → List Bytes
unfolding push_element
elements_from rooted cur es [] = push_element rooted es cur
elements_from rooted cur es (c ∷ s) =
    let cut_here = elements_from rooted [] (push_element rooted es cur) s in
    let longer = elements_from rooted (cur ++ c ∷ []) es s in if c == b'/' then cut_here else longer

or_dot : Bytes → Bytes
or_dot [] = codes "."
or_dot (c ∷ s) = c ∷ s

-- `filepath.Clean`
unfoldable pub clean : Bytes → Bytes
unfolding elements_from join or_dot
clean [] = codes "."
clean (c ∷ s) =
    if c == b'/'
    then b'/' ∷ join (reverse (elements_from true [] [] s)) (b'/' ∷ [])
    else or_dot (join (reverse (elements_from false [] [] (c ∷ s))) (b'/' ∷ []))

-- `filepath.Join` of two elements, of which empty ones in front are left out.
unfoldable pub join_path : Bytes → Bytes → Bytes
unfolding clean
join_path [] [] = []
join_path [] (c ∷ b) = clean (c ∷ b)
join_path (c ∷ a) b = clean (c ∷ (a ++ b'/' ∷ b))

-- `expandTilde`
unfoldable pub expand_tilde : Option Bytes → Bytes → Bytes
unfolding join_path bytes_eq strip_prefix
expand_tilde none path = path
expand_tilde (some home) path =
    if bytes_eq path (codes "~") || has_prefix path (codes "~/")
    then join_path home (trim_prefix path (codes "~"))
    else path

-- The switch on the keyword of a line.
unfoldable pub set_option : Option Bytes → Bytes → Bytes → Config → Config
unfolding bytes_eq expand_tilde none_to_empty fields
set_option home key val c =
    if bytes_eq key (codes "hostname")
    then record c { host_name = val }
    else if bytes_eq key (codes "port")
    then record c { port = val }
    else if bytes_eq key (codes "user")
    then record c { user = val }
    else if bytes_eq key (codes "identityfile")
    then record c { identity_files = c.identity_files ++ expand_tilde home val ∷ [] }
    else if bytes_eq key (codes "identitiesonly")
    then record c { identities_only = bytes_eq val (codes "yes") }
    else if bytes_eq key (codes "userknownhostsfile") || bytes_eq key (codes "globalknownhostsfile")
    then record c {
      known_hosts_files = c.known_hosts_files ++ map (expand_tilde home) (fields val);
    }
    else if bytes_eq key (codes "stricthostkeychecking")
    then record c { strict_host_key_checking = val }
    else if bytes_eq key (codes "proxyjump")
    then record c { proxy_jump = none_to_empty val }
    else if bytes_eq key (codes "proxycommand")
    then record c { proxy_command = none_to_empty val }
    else c

-- One line: a keyword without a value is passed over.
unfoldable pub parse_line : Option Bytes → Bytes → Config → Config
unfolding cut_at trim_space set_option
parse_line home line c = elim (cut_at (b' ' ∷ []) line) [
  | none ↦ c
  | some (key, val) ↦ set_option home key (trim_space val) c
]

-- What can go wrong: an empty host, ssh itself, or a line that is too long for the scanner.
pub data ConfigError : Type 0 where
  empty_host : ConfigError
  ssh_failed : (host err stderr : Bytes) → ConfigError
  line_too_long : ConfigError

pub data Resolved : Type 0 where
  bad : ConfigError → Resolved
  good : Config → Resolved

-- The host name and the port that no line gave.
pub default_name : Bytes → Config → Config
unfolding bytes_eq
default_name host c = if bytes_eq c.host_name [] then record c { host_name = host } else c

pub default_port : Config → Config
unfolding bytes_eq
default_port c = if bytes_eq c.port [] then record c { port = codes "22" } else c

unfoldable pub with_defaults : Bytes → Config → Config
unfolding default_name default_port
with_defaults host c = default_port (default_name host c)

-- The loop over the lines, and what stands behind it.
unfoldable pub parse_lines : Option Bytes → Bytes → List (Option Bytes) → Config → Resolved
unfolding parse_line with_defaults
parse_lines home host [] c = good (with_defaults host c)
parse_lines home host (none ∷ ls) c = bad line_too_long
parse_lines home host (some l ∷ ls) c = parse_lines home host ls (parse_line home l c)

abbrev pub empty_config : Bytes → Config
empty_config host = record {
  host = host;
  host_name = [];
  port = [];
  user = [];
  identity_files = [];
  identities_only = false;
  known_hosts_files = [];
  strict_host_key_checking = [];
  proxy_jump = [];
  proxy_command = [];
}

-- `parseConfig`
unfoldable pub parse_config : Option Bytes → Bytes → Bytes → Resolved
unfolding parse_lines scan_lines
parse_config home host out = parse_lines home host (scan_lines out) (empty_config host)

-- What running ssh gives: its output, or an error with what it wrote to stderr.
pub data Ran : Type 0 where
  printed : Bytes → Ran
  exited : (err stderr : Bytes) → Ran

unfoldable pub ssh_args : Bytes → Bytes → List Bytes
unfolding bytes_eq
ssh_args config_file host =
    codes "-G"
    ∷ ((if bytes_eq config_file [] then [] else codes "-F" ∷ config_file ∷ []) ++ host ∷ [])

-- `ResolveConfig`
pub after_run : Option Bytes → Bytes → Ran → Resolved
unfolding parse_config trim_space
after_run home host (exited err stderr) = bad (ssh_failed host err (trim_space stderr))
after_run home host (printed out) = parse_config home host out

unfoldable pub resolve_config : Option Bytes → (List Bytes → Ran) → Bytes → Bytes → Resolved
unfolding after_run ssh_args bytes_eq
resolve_config home ssh host config_file =
    if bytes_eq host []
    then bad empty_host
    else after_run home host (ssh (ssh_args config_file host))

-- `addr`
unfoldable pub addr : Config → Bytes
addr c = c.host_name ++ b':' ∷ c.port
