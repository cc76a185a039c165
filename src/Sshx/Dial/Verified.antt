-- ===== src/Sshx/Dial/Verified.antt =====
-- internal/sshx/dial.go: over which connections `Dial` hands out a client.
use shevet.Prelude.{◌≡◌, ◌⊎◌, false, Option, none, some, List, Bytes}
use shevet.Sshx.Config.{Config, strict, check_directly_reachable, addr}
use shevet.Sshx.Dial.{KeyCheck, matches, agreed, Callback, Outside, existing_files}

-- The library's handshake ends over a connection only if the callback took the host's key.
abbrev pub ChecksKey : Outside → Type 0
ChecksKey o =
    (user : Bytes) (signers : List Bytes) (check : Callback) (key : Bytes)
    → o.handshake user signers check ≡ agreed key
    → check key ≡ none

-- The key is that of the host in the known_hosts files that exist.
pub record Known (o : Outside) (c : Config) (key : Bytes) : Type 0 where
  pub database : Bytes → Bytes → KeyCheck
  pub loaded : o.known_hosts (existing_files o.file_exists c.known_hosts_files) ≡ some database
  pub matched : database (addr c) key ≡ matches

-- What a callback that was made takes.
Takes : Outside → Config → Option Callback → Bytes → Type 0
Takes o c none key = Unit
Takes o c (some check) key = check key ≡ none → (strict c ≡ false) ⊎ Known o c key

-- A connection with its verification.
pub record Verified (o : Outside) (c : Config) (key : Bytes) : Type 0 where
  pub no_proxy : check_directly_reachable c ≡ none
  pub key_known : (strict c ≡ false) ⊎ Known o c key
