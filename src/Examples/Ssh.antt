-- ===== src/Examples/Ssh.antt =====
-- Tests and instances for internal/sshx and internal/client/ssh.go: the shell, the host's key, and the
-- fall back to the proxy.
use shevet.Prelude.{
  ◌≡◌, refl, true, false, Option, none, some, List, [], ◌∷◌, ◌++◌, if◌then◌else◌, replicate, Bytes,
  codes, bytes_eq,
}
use shevet.Sshx.Config.{Config}
use shevet.Sshx.Shell.{shell_quote, shell_words, shell_words-shell_quote}
use shevet.Sshx.Dial.{
  matches, unknown, HostKeyError, Handshake, agreed, key_refused, Outside, auth_signers,
}
use shevet.Sshx.Dial.Verified.{Verified}
use shevet.Client.Transport.{
  Call, stream_local, command, Answer, stream, unsupported, SshTransport, new_ssh_transport,
  dial_all, dial_all-refused,
}

-- A path with a quote in it, and an empty argument.
abbrev argv : List Bytes
argv = codes "shevet" ∷ codes "/tmp/o'b s" ∷ [] ∷ []

test_shell_quote : shell_quote argv ≡ codes "'shevet' '/tmp/o'\\''b s' ''"
unfolding shell_quote
test_shell_quote = refl

shell_words-shell_quote_example : shell_words (shell_quote argv) ≡ some argv
shell_words-shell_quote_example = shell_words-shell_quote argv

abbrev web : Config
web = record {
  host = codes "web";
  host_name = codes "10.0.0.7";
  port = codes "22";
  user = codes "ann";
  identity_files = codes "/k/a" ∷ codes "/k/b" ∷ [];
  identities_only = true;
  known_hosts_files = codes "/k/hosts" ∷ [];
  strict_host_key_checking = codes "ask";
  proxy_jump = [];
  proxy_command = [];
}

abbrev key : Bytes
key = codes "host-key"

abbrev ends_by : Option HostKeyError → Handshake
ends_by none = agreed key
ends_by (some e) = key_refused e

-- A host whose key the database knows, and one key file that can be read.
abbrev around : Outside
around = record {
  agent_signers = codes "agent" ∷ codes "a" ∷ [];
  load_identity = λ path. if bytes_eq path (codes "/k/a") then some (codes "a") else none;
  file_exists = λ path. true;
  known_hosts = λ files. some (λ address k. if bytes_eq k key then matches else unknown);
  connect = λ address. none;
  handshake = λ user signers check. ends_by (check key);
}

test_auth_signers :
    (auth_signers around web ≡ codes "a" ∷ [])
    × (auth_signers around (record web { identities_only = false })
        ≡ codes "a" ∷ codes "agent" ∷ [])
unfolding auth_signers
test_auth_signers = (refl, refl)

-- An sshd that refuses streamlocal forwarding, and runs commands.
last_answer : List Call → Answer
last_answer [] = stream
last_answer (stream_local path ∷ []) = unsupported
last_answer (command words ∷ []) = stream
last_answer (c ∷ d ∷ cs) = last_answer (d ∷ cs)

abbrev transport : SshTransport
transport = record {
  remote_path = codes "/home/ann/.shevet/shevet.sock";
  proxy_argv = codes "shevet" ∷ codes "_proxy" ∷ codes "/home/ann/.shevet/shevet.sock" ∷ [];
  stream_local_down = false;
  last_conn = none;
}

test_new_ssh_transport :
    new_ssh_transport
      (some (codes "/home/ann"))
      (record { config_file = []; remote_socket = []; remote_command = [] })
    ≡ some transport
unfolding new_ssh_transport
test_new_ssh_transport = refl

dial_all-refused_example :
    dial_all last_answer 3 transport []
    ≡ [] ++ stream_local transport.remote_path ∷ replicate 3 (command transport.proxy_argv)
dial_all-refused_example =
    dial_all-refused last_answer 2 transport [] refl (unfold last_answer in refl)
