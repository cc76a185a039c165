-- ===== src/Client/Transport.antt =====
-- internal/client/ssh.go: the dialer over one SSH connection, which falls back to a remote proxy. The
-- connection is what it was asked so far, and a function of that which answers.
use shevet.Prelude.{
  ℕ, suc, zero, ◌≡◌, refl, sym, ap, ◌∙◌, Bool, true, false, not, Option, none, some, List, [], ◌∷◌,
  ◌++◌, append-nil, append_assoc, if◌then◌else◌, if_true, if_false, replicate, Bytes, codes,
  bytes_eq,
}
use shevet.Sshx.Config.{join_path}

-- `SSHOptions`, but for the logger.
pub record SshOptions : Type 0 where
  pub config_file : Bytes
  pub remote_socket : Bytes
  pub remote_command : List Bytes

-- What the dialer asks of the SSH connection.
pub data Call : Type 0 where
  stream_local : (path : Bytes) → Call
  command : (argv : List Bytes) → Call

-- The answer: a stream, a refusal of streamlocal forwarding, or another error.
pub data Answer : Type 0 where
  stream : Answer
  unsupported : Answer
  broken : Bytes → Answer

-- `sshTransport`; `last_conn` is the call whose stream it remembers.
pub record SshTransport : Type 0 where
  pub remote_path : Bytes
  pub proxy_argv : List Bytes
  pub stream_local_down : Bool
  pub last_conn : Option Call

-- `paths.SocketRel`
unfoldable pub socket_rel : Bytes
unfolding join_path
socket_rel = join_path (codes ".shevet") (codes "shevet.sock")

abbrev default_command : List Bytes → List Bytes
default_command [] = codes "shevet" ∷ codes "_proxy" ∷ []
default_command (a ∷ argv) = a ∷ argv

-- `newSSHTransport` on the home directory of the host, which is asked for if no socket is given; an
-- error of that question is `none`.
at_path : SshOptions → Bytes → SshTransport
at_path opts path = record {
  remote_path = path;
  proxy_argv = default_command opts.remote_command ++ path ∷ [];
  stream_local_down = false;
  last_conn = none;
}

unfoldable pub new_ssh_transport : Option Bytes → SshOptions → Option SshTransport
unfolding at_path bytes_eq join_path socket_rel
new_ssh_transport home opts =
    if not (bytes_eq opts.remote_socket [])
    then some (at_path opts opts.remote_socket)
    else elim home [ none ↦ none | some h ↦ some (at_path opts (join_path h socket_rel)) ]

-- The calls so far, and the answers that the connection gives behind them.
abbrev pub Answers : Type 0
Answers = List Call → Answer

-- `remember`, for a stream; the error of the dial otherwise.
pub remember : Call → Answer → SshTransport → Option Bytes × SshTransport
remember call stream t = (none, record t { last_conn = some call })
remember call unsupported t = (some (codes "streamlocal forwarding unavailable"), t)
remember call (broken e) t = (some e, t)

-- The rest of `dial`: the command.
pub dial_command : Answers → SshTransport → List Call → (Option Bytes × SshTransport) × List Call
unfolding remember
dial_command answers t calls =
    let call = command t.proxy_argv in
    (remember call (answers (calls ++ call ∷ [])) t, calls ++ call ∷ [])

pub after_stream_local :
    Answers → Answer → SshTransport → List Call → (Option Bytes × SshTransport) × List Call
unfolding dial_command remember
after_stream_local answers unsupported t calls =
    dial_command answers (record t { stream_local_down = true }) calls
after_stream_local answers a t calls = (remember (stream_local t.remote_path) a t, calls)

-- `sshTransport.dial`: its error or none, with the calls behind those so far.
unfoldable pub dial : Answers → SshTransport → List Call → (Option Bytes × SshTransport) × List Call
unfolding after_stream_local dial_command
dial answers t calls =
    let asked = calls ++ stream_local t.remote_path ∷ [] in
    if t.stream_local_down
    then dial_command answers t calls
    else after_stream_local answers (answers asked) t asked

-- The calls of some dials.
pub dial_all : Answers → ℕ → SshTransport → List Call → List Call
unfolding dial
dial_all answers zero t calls = calls
dial_all answers (suc n) t calls =
    let ((err, t'), calls') = dial answers t calls in dial_all answers n t' calls'

remember-keeps :
    (call : Call) (a : Answer) (t : SshTransport)
    → ((remember call a t).1.stream_local_down ≡ t.stream_local_down)
      × ((remember call a t).1.proxy_argv ≡ t.proxy_argv)
unfolding remember
remember-keeps call stream t = (refl, refl)
remember-keeps call unsupported t = (refl, refl)
remember-keeps call (broken e) t = (refl, refl)

dial-down :
    (answers : Answers) (t : SshTransport) (calls : List Call)
    → t.stream_local_down ≡ true
    → dial answers t calls ≡ dial_command answers t calls
unfolding dial
dial-down answers t calls h = if_true t.stream_local_down _ _ h

dial-refused :
    (answers : Answers) (t : SshTransport) (calls : List Call)
    → t.stream_local_down ≡ false
    → answers (calls ++ stream_local t.remote_path ∷ []) ≡ unsupported
    → dial answers t calls
      ≡ dial_command answers
          (record t { stream_local_down = true })
          (calls ++ stream_local t.remote_path ∷ [])
unfolding dial
dial-refused answers t calls h r =
    let asked = calls ++ stream_local t.remote_path ∷ [] in
    if_false t.stream_local_down (dial_command answers t calls)
      (after_stream_local answers (answers asked) t asked) h
    ∙ (ap (λ a. after_stream_local answers a t asked) r ∙ by_command asked)
  where
    by_command :
        (asked : List Call)
        → after_stream_local answers unsupported t asked
          ≡ dial_command answers (record t { stream_local_down = true }) asked
    by_command asked = unfold after_stream_local in refl

dial_all-down :
    (answers : Answers) (n : ℕ) (t : SshTransport) (calls : List Call)
    → t.stream_local_down ≡ true
    → dial_all answers n t calls ≡ calls ++ replicate n (command t.proxy_argv)
unfolding dial_all
dial_all-down answers zero t calls h = sym (append-nil calls)
dial_all-down answers (suc n) t calls h =
    let asked = calls ++ command t.proxy_argv ∷ [] in
    let r = remember (command t.proxy_argv) (answers asked) t in
    let (d, p) = remember-keeps (command t.proxy_argv) (answers asked) t in
    ap (λ (x : (Option Bytes × SshTransport) × List Call). dial_all answers n x.0.1 x.1)
      (dial-down answers t calls h ∙ (unfold dial_command in refl))
    ∙ (dial_all-down answers n r.1 asked (d ∙ h)
        ∙ (ap (λ argv. asked ++ replicate n (command argv)) p
            ∙ append_assoc calls (command t.proxy_argv ∷ []) (replicate n (command t.proxy_argv))))

-- Once the host refuses streamlocal forwarding, that dial and all that follow run the proxy command,
-- and none asks for streamlocal again.
pub dial_all-refused :
    (answers : Answers) (n : ℕ) (t : SshTransport) (calls : List Call)
    → t.stream_local_down ≡ false
    → answers (calls ++ stream_local t.remote_path ∷ []) ≡ unsupported
    → dial_all answers (suc n) t calls
      ≡ calls ++ stream_local t.remote_path ∷ replicate (suc n) (command t.proxy_argv)
unfolding dial_all
dial_all-refused answers n t calls h r =
    let asked = calls ++ stream_local t.remote_path ∷ [] in
    let down : SshTransport = record t { stream_local_down = true } in
    let onward : (Option Bytes × SshTransport) × List Call → List Call =
      λ x. dial_all answers n x.0.1 x.1 in
    ap onward (dial-refused answers t calls h r ∙ sym (dial-down answers down asked refl))
    ∙ (dial_all-down answers (suc n) down asked refl
        ∙ append_assoc calls (stream_local t.remote_path ∷ [])
            (replicate (suc n) (command t.proxy_argv)))
