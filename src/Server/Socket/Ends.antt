-- ===== src/Server/Socket/Ends.antt =====
-- internal/server/server.go: a Server that ran leaves its socket's path free for the next one.
use shevet.Prelude.{
  ℕ, ◌≡◌, refl, ap, ◌∙◌, true, false, not, Option, none, some, ◌∷◌, if◌then◌else◌, if_false,
  if_cases, Bytes,
}
use shevet.Server.Socket.{
  Node, nothing, other_file, socket_file, Os, ServerError, clear_stale_socket, bind, remove_quietly,
  private_mode, restrict, after_clear, listen_unix, listen, Server, serve, run, serve_attached,
  serve_rpc, GrpcEnd, already_listening_here, serve_before_listen, keep_listener, after_listen,
}
use shevet.Server.Socket.Alone.{is_taken}

-- An operating system on which no call fails.
abbrev pub works : ℕ → Os
works mode = record {
  mkdir_fails = false;
  lstat_fails = false;
  dial_fails = false;
  remove_fails = false;
  listen_fails = false;
  chmod_fails = false;
  fresh_mode = mode;
}

takes_over :
    (mode : ℕ) (c : ℕ) (path : Bytes) (n : Node)
    → is_taken n ≡ false
    → listen_unix (works mode) (c ∷ path) n ≡ (none, socket_file private_mode true)
unfolding listen_unix after_clear clear_stale_socket restrict bind is_taken
takes_over mode c path nothing h = refl
takes_over mode c path other_file h = absurd (cc)
takes_over mode c path (socket_file m true) h = absurd (cc)
takes_over mode c path (socket_file m false) h = refl

close-nothing : (os : Os) → os.remove_fails ≡ false → (n : Node) → remove_quietly os n ≡ nothing
unfolding remove_quietly
close-nothing os r n = if_false os.remove_fails n nothing r

serve_attached-nothing :
    (os : Os) (attached : Option Bytes) (ended : GrpcEnd) (n : Node)
    → os.remove_fails ≡ false
    → (serve_attached os attached ended n).1 ≡ nothing
unfolding serve_attached
serve_attached-nothing os attached ended n r = close-nothing os r (serve_rpc os attached ended n).1

serve-nothing :
    (os : Os) (attached : Option Bytes) (ended : GrpcEnd) (s : Server) (n : Node)
    → os.remove_fails ≡ false
    → s.has_listener ≡ true
    → (serve os attached ended s n).1 ≡ nothing
unfolding serve
serve-nothing os attached ended s n r h =
    ap (λ (x : Option ServerError × Node). x.1)
      (if_false (not s.has_listener) (some serve_before_listen, n) _ (ap not h))
    ∙ serve_attached-nothing os (if s.with_tmux then attached else none) ended n r

abbrev Listens : (Option ServerError × Server) × Node → Type 0
Listens r = r.0.0 ≡ none → r.0.1.has_listener ≡ true

keep_listener-Listens : (s : Server) (r : Option ServerError × Node) → Listens (keep_listener s r)
unfolding keep_listener
keep_listener-Listens s (some e, n) h = absurd (cc)
keep_listener-Listens s (none, n) h = refl

listen-Listens : (os : Os) (s : Server) (n : Node) → Listens (listen os s n)
unfolding listen
listen-Listens os s n =
    if_cases Listens s.has_listener ((some already_listening_here, s), n)
      (keep_listener s (listen_unix os s.socket_path n)) (λ h e. h)
      (λ h. keep_listener-Listens s (listen_unix os s.socket_path n))

after_listen-nothing :
    (os : Os) (attached : Option Bytes) (ended : GrpcEnd) (r : (Option ServerError × Server) × Node)
    → os.remove_fails ≡ false
    → Listens r
    → r.0.0 ≡ none
    → (after_listen os attached ended r).1 ≡ nothing
unfolding after_listen
after_listen-nothing os attached ended ((some e, s), n) f l h = absurd (cc)
after_listen-nothing os attached ended ((none, s), n) f l h =
    serve-nothing os attached ended s n f (l refl)

-- A Server that could listen, and beside which nothing happens at the path, leaves nothing at the path when it ends, whether tmux could be attached
-- and however the RPC server ends, if files can be removed; and the next Server listens there, on a
-- socket for its owner, if its own calls succeed.
pub run-listen_unix :
    (os : Os) (attached : Option Bytes) (ended : GrpcEnd) (s : Server) (n : Node) (mode c : ℕ)
    (path : Bytes)
    → os.remove_fails ≡ false
    → (listen os s n).0.0 ≡ none
    → ((run os attached ended s n).1 ≡ nothing)
      × (listen_unix (works mode) (c ∷ path) (run os attached ended s n).1
          ≡ (none, socket_file private_mode true))
unfolding run is_taken
run-listen_unix os attached ended s n mode c path f h =
    let gone = after_listen-nothing os attached ended (listen os s n) f (listen-Listens os s n) h in
    (gone, ap (listen_unix (works mode) (c ∷ path)) gone ∙ takes_over mode c path nothing refl)
