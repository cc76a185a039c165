-- ===== src/Sshx/Config/Reads/Whole.antt =====
-- internal/sshx/config.go: `parseConfig` reads the configuration that the options say.
use shevet.Prelude.{◌≡◌, Bool, Option, List, [], ◌∷◌, ◌++◌, map, if◌then◌else◌, Bytes, fields}
use shevet.Sshx.Config.{Config, expand_tilde, set_option}
use shevet.Sshx.Config.Reads.{is_hosts_key}

module _ (home : Option Bytes) where
  gather : (Bytes → List Bytes) → List Bytes → List Bytes
  gather of [] = []
  gather of (v ∷ vs) = of v ++ gather of vs

  HostsStep : Bytes → Bytes → Config → Type 0
  HostsStep k v c = (set_option home k v c).known_hosts_files ≡ (
      if is_hosts_key k
      then c.known_hosts_files ++ map (expand_tilde home) (fields v)
      else c.known_hosts_files)
