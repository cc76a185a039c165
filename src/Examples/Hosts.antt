-- ===== src/Examples/Hosts.antt =====
-- Tests and instances for internal/sshx and internal/scriptedagent.
use shevet.Prelude.{
  ℕ, ◌≡◌, refl, Bool, true, false, not, ◌&&◌, Option, none, some, List, [], ◌∷◌, map, arith, ltb,
  ◌==◌, ltb→lt, length, All, ℤ, pos, negsuc, Bytes, codes, bytes_eq, trim_space, Lacks,
}
use shevet.Prelude.Decimal.{decimal, itoa, atoi}
use shevet.Prelude.Scan.{IsLine, unlines}
use shevet.Sshx.Config.{
  Config, strict, check_directly_reachable, expand_tilde, clean, Ran, printed, resolve_config, addr,
}
use shevet.Sshx.Config.Reads.{Setting, all_values, last_value, is_hosts_key}
use shevet.Sshx.Config.Dials.{CanDial, resolve_config-CanDial}
use shevet.Agent.{print, await_line, spam, exit, sleep, ok, parse}
use shevet.Agent.Written.{Line, does, says, gap, show_line, steps_of, parse-lines}
use shevet.Agent.Run.{exits, run}
use shevet.Agent.Run.Flood.{pipe, play, Plays, run-Plays}

tests_expand_tilde :
    (expand_tilde (some (codes "/home/ann")) (codes "~/.ssh/id") ≡ codes "/home/ann/.ssh/id")
    × (expand_tilde (some (codes "/home/ann/")) (codes "~") ≡ codes "/home/ann")
    × (expand_tilde (some (codes "/home/ann")) (codes "~bob/x") ≡ codes "~bob/x")
    × (expand_tilde none (codes "~/x") ≡ codes "~/x")
unfolding expand_tilde
tests_expand_tilde = (refl, refl, refl, refl)

tests_clean :
    (clean (codes "/a/./b/../c//d") ≡ codes "/a/c/d")
    × (clean (codes "/../a") ≡ codes "/a")
    × (clean (codes "../../a/..") ≡ codes "../..")
    × (clean (codes "a/..") ≡ codes ".")
unfolding clean
tests_clean = (refl, refl, refl, refl)

abbrev home : Option Bytes
home = some (codes "/home/ann")

-- A Host with two keys, reached without a proxy.
abbrev server : Config
server = record {
  host = codes "web";
  host_name = codes "10.0.0.7";
  port = codes "2222";
  user = codes "ann";
  identity_files = codes "/k/a" ∷ codes "/k/b" ∷ [];
  identities_only = true;
  known_hosts_files = codes "/k/h1" ∷ codes "/k/h2" ∷ [];
  strict_host_key_checking = codes "ask";
  proxy_jump = [];
  proxy_command = [];
}

tests_server :
    (strict server ≡ true)
    × (strict (record server { strict_host_key_checking = codes "OFF" }) ≡ false)
    × (check_directly_reachable server ≡ none)
    × (addr server ≡ codes "10.0.0.7:2222")
unfolding strict check_directly_reachable addr
tests_server = (refl, refl, refl, refl)

-- Whether a list of bytes is without one, decided by looking.
all_ne : ℕ → Bytes → Bool
all_ne b [] = true
all_ne b (c ∷ s) = not (c == b) && all_ne b s

all_ne-Lacks : (b : ℕ) (s : Bytes) → all_ne b s ≡ true → Lacks b s
unfolding all_ne
all_ne-Lacks b [] h = tt
all_ne-Lacks b (c ∷ s) h = (λ e. absurd (ground arith), all_ne-Lacks b s (ground arith))

is_line :
    (s : Bytes)
    → all_ne b'\n' s ≡ true
    → all_ne b'\r' s ≡ true
    → ltb (length s) 65536 ≡ true
    → IsLine s
is_line s a b c = record {
  no_newline = all_ne-Lacks b'\n' s a;
  no_return = all_ne-Lacks b'\r' s b;
  short = ltb→lt (length s) 65536 c;
}

all_lines : List Bytes → Bool
unfolding all_ne
all_lines [] = true
all_lines (l ∷ ls) = all_ne b'\n' l && (all_ne b'\r' l && (ltb (length l) 65536 && all_lines ls))

all_lines-IsLine : (ls : List Bytes) → all_lines ls ≡ true → All IsLine ls
unfolding all_lines
all_lines-IsLine [] h = tt
all_lines-IsLine (l ∷ ls) h =
    let (a, b, c, d) =
      parts (all_ne b'\n' l) (all_ne b'\r' l) (ltb (length l) 65536) (all_lines ls) h in
    (is_line l a b c, all_lines-IsLine ls d)
  where
    parts :
        (a b c d : Bool)
        → (a && (b && (c && d))) ≡ true
        → (a ≡ true) × (b ≡ true) × (c ≡ true) × (d ≡ true)
    parts a b c d h = ground arith

all_keys : List Setting → Bool
unfolding all_ne
all_keys [] = true
all_keys ((k, v) ∷ ss) = all_ne 32 k && all_keys ss

-- What ssh prints of a host with two keys, in its own order, with an option that is not read.
abbrev settings : List Setting
settings =
    (codes "user", codes "ann")
    ∷ (codes "hostname", codes "10.0.0.7")
    ∷ (codes "port", codes "2222")
    ∷ (codes "addressfamily", codes "any")
    ∷ (codes "identitiesonly", codes "yes")
    ∷ (codes "proxyjump", codes "none")
    ∷ (codes "identityfile", codes "~/.ssh/id_ed25519")
    ∷ (codes "identityfile", codes "/k/b")
    ∷ (codes "globalknownhostsfile", codes "/etc/ssh/ssh_known_hosts")
    ∷ (codes "userknownhostsfile", codes "~/.ssh/known_hosts ~/.ssh/known_hosts2")
    ∷ []

tests_settings :
    (all_values is_hosts_key settings
      ≡ codes "/etc/ssh/ssh_known_hosts" ∷ codes "~/.ssh/known_hosts ~/.ssh/known_hosts2" ∷ [])
    × (last_value (codes "port") settings ≡ codes "2222")
unfolding bytes_eq trim_space
tests_settings = (refl, refl)

-- ssh knows nothing of the host but its key.
abbrev says_key : List Bytes → Ran
says_key args = printed (codes "identityfile ~/.ssh/id\n")

abbrev plain : Config
plain = record {
  host = codes "db";
  host_name = codes "db";
  port = codes "22";
  user = [];
  identity_files = codes "/home/ann/.ssh/id" ∷ [];
  identities_only = false;
  known_hosts_files = [];
  strict_host_key_checking = [];
  proxy_jump = [];
  proxy_command = [];
}

resolve_config-CanDial_example : CanDial (codes "db") plain
resolve_config-CanDial_example =
    resolve_config-CanDial home says_key (codes "db") [] plain (unfold resolve_config in refl)

-- A script, with durations in nanoseconds for the sake of the instance.
abbrev nanoseconds : Bytes → Option ℤ
nanoseconds = atoi

abbrev script : List Line
script =
    says 0 (codes " greets")
    ∷ does 0 (print (codes "hi "))
    ∷ gap 2
    ∷ does 2 (sleep (pos 5))
    ∷ does 0 (spam 2 (codes "x y"))
    ∷ does 0 await_line
    ∷ does 1 (exit (negsuc 0))
    ∷ []

parse-lines_example :
    parse nanoseconds (unlines (map (show_line itoa) script)) ≡ ok (steps_of script)
parse-lines_example =
    parse-lines nanoseconds itoa script
      (
        tt,
        (
          tt,
          (
            tt,
            (
              unfold trim_space atoi itoa in refl,
              ((omega arith, λ e. absurd (trimmed e)), (tt, (omega arith, tt))),
            ),
          ),
        ),
      )
      (all_lines-IsLine (map (show_line itoa) script) (unfold all_lines itoa decimal in refl))
  where
    trimmed : trim_space (codes "x y") ≡ [] → ⊥
    trimmed e = unfold trim_space in absurd (ground arith)

run-Plays_example :
    Plays [] (play (steps_of script) (codes "go\n")) (run pipe (steps_of script) (codes "go\n") [])
run-Plays_example = run-Plays (steps_of script) (codes "go\n") []

test_run :
    run pipe (steps_of script) (codes "go\n") []
    ≡ (exits (negsuc 0), [], codes "hi \nx y 1\nx y 2\n")
unfolding run decimal
test_run = refl
