-- ===== src/Server/Socket.antt =====
-- internal/server/server.go: the unix socket of the Server, from Listen to the end of Serve. The file
-- system is what stands at the socket's path, with the calls that fail there. A call of `listen_unix`
-- is one step: what another process does between its system calls is not modelled.
pub mod Alone
pub mod Ends
pub mod Many
-- What stands at the socket's path; a socket keeps its mode, and whether a process accepts on it.
use shevet.Prelude.{
  ℕ, Bool, true, false, not, ◌&&◌, Option, none, some, [], ◌∷◌, if◌then◌else◌, Bytes,
}

pub data Node : Type 0 where
  nothing : Node
  other_file : Node
  socket_file : (mode : ℕ) → (listening : Bool) → Node

-- The calls of the operating system that fail, and the mode of a socket it has just made.
pub record Os : Type 0 where
  pub mkdir_fails : Bool
  pub lstat_fails : Bool
  pub dial_fails : Bool
  pub remove_fails : Bool
  pub listen_fails : Bool
  pub chmod_fails : Bool
  pub fresh_mode : ℕ

-- The errors of `Listen` and of `Serve`.
pub data ServerError : Type 0 where
  already_listening_here : ServerError
  empty_path : ServerError
  create_directory : ServerError
  inspect_socket : ServerError
  not_a_socket : ServerError
  server_already_listening : ServerError
  remove_stale : ServerError
  listen_on : ServerError
  restrict_permissions : ServerError
  serve_before_listen : ServerError
  attach_to_tmux : Bytes → ServerError
  grpc_serve : Bytes → ServerError

unfoldable pub is_live : Node → Bool
is_live (socket_file mode b) = b
is_live nothing = false
is_live other_file = false

-- `clearStaleSocket`
unfoldable pub clear_stale_socket : Os → Node → Option ServerError × Node
clear_stale_socket os nothing = (if os.lstat_fails then some inspect_socket else none, nothing)
clear_stale_socket os other_file =
    (some (if os.lstat_fails then inspect_socket else not_a_socket), other_file)
clear_stale_socket os (socket_file mode live) =
    if os.lstat_fails
    then (some inspect_socket, socket_file mode live)
    else if live && not os.dial_fails
    then (some server_already_listening, socket_file mode live)
    else if os.remove_fails
    then (some remove_stale, socket_file mode live)
    else (none, nothing)

-- `net.Listen`, which does not take a path that is in use.
unfoldable pub bind : Os → Node → Option ServerError × Node
bind os nothing =
    if os.listen_fails then (some listen_on, nothing) else (none, socket_file os.fresh_mode true)
bind os other_file = (some listen_on, other_file)
bind os (socket_file mode live) = (some listen_on, socket_file mode live)

-- The end of a listener: nobody accepts any more, and the file is removed if that succeeds.
unfoldable pub close_listener : Os → Node → Node
close_listener os nothing = nothing
close_listener os other_file = if os.remove_fails then other_file else nothing
close_listener os (socket_file mode live) =
    if os.remove_fails then socket_file mode false else nothing

-- `os.Remove` whose error is ignored.
unfoldable pub remove_quietly : Os → Node → Node
remove_quietly os n = if os.remove_fails then n else nothing

-- 0o600
abbrev pub private_mode : ℕ
private_mode = 384

abbrev with_mode : ℕ → Node → Node
with_mode m (socket_file mode live) = socket_file m live
with_mode m nothing = nothing
with_mode m other_file = other_file

-- The steps of `listenUnix` behind `net.Listen`, then behind `clearStaleSocket`.
unfoldable pub restrict : Os → Option ServerError × Node → Option ServerError × Node
unfolding close_listener
restrict os (some e, n) = (some e, n)
restrict os (none, n) =
    if os.chmod_fails
    then (some restrict_permissions, close_listener os n)
    else (none, with_mode private_mode n)

unfoldable pub after_clear : Os → Option ServerError × Node → Option ServerError × Node
unfolding restrict bind
after_clear os (some e, n) = (some e, n)
after_clear os (none, n) = restrict os (bind os n)

-- `listenUnix`: its error or none, with what stands at the path behind it.
unfoldable pub listen_unix : Os → Bytes → Node → Option ServerError × Node
unfolding after_clear clear_stale_socket
listen_unix os [] n = (some empty_path, n)
listen_unix os (c ∷ path) n =
    if os.mkdir_fails then (some create_directory, n) else after_clear os (clear_stale_socket os n)

-- `Server`, of which this file reads the options and whether it has a listener.
pub record Server : Type 0 where
  pub socket_path : Bytes
  pub with_tmux : Bool
  pub has_listener : Bool

unfoldable pub keep_listener :
    Server → Option ServerError × Node → (Option ServerError × Server) × Node
keep_listener s (some e, n) = ((some e, s), n)
keep_listener s (none, n) = ((none, record s { has_listener = true }), n)

-- `Server.Listen`
unfoldable pub listen : Os → Server → Node → (Option ServerError × Server) × Node
unfolding keep_listener listen_unix
listen os s n =
    if s.has_listener
    then ((some already_listening_here, s), n)
    else keep_listener s (listen_unix os s.socket_path n)

-- How the RPC server ends: stopped by its context, before or while it serves, or with an error.
pub data GrpcEnd : Type 0 where
  graceful : GrpcEnd
  stopped_before : GrpcEnd
  broken : Bytes → GrpcEnd

abbrev grpc_error : GrpcEnd → Option ServerError
grpc_error graceful = none
grpc_error stopped_before = none
grpc_error (broken e) = some (grpc_serve e)

-- `Serve` up to the end of the RPC server, which closes the listener as it begins to stop and returns
-- once the calls in flight are done; without tmux it is not begun.
unfoldable pub serve_rpc : Os → Option Bytes → GrpcEnd → Node → Option ServerError × Node
unfolding close_listener
serve_rpc os (some e) ended n = (some (attach_to_tmux e), n)
serve_rpc os none ended n = (grpc_error ended, close_listener os n)

-- The deferred removal of the file, behind that. What other processes do at the path between the close
-- and the removal is left out here; Socket/Many has these as two steps.
unfoldable pub serve_attached : Os → Option Bytes → GrpcEnd → Node → Option ServerError × Node
unfolding serve_rpc remove_quietly
serve_attached os attached ended n =
    let (err, n') = serve_rpc os attached ended n in (err, remove_quietly os n')

-- `Server.Serve`
unfoldable pub serve : Os → Option Bytes → GrpcEnd → Server → Node → Option ServerError × Node
unfolding serve_attached
serve os attached ended s n =
    if not s.has_listener
    then (some serve_before_listen, n)
    else serve_attached os (if s.with_tmux then attached else none) ended n

unfoldable pub after_listen :
    Os → Option Bytes → GrpcEnd → (Option ServerError × Server) × Node → Option ServerError × Node
unfolding serve
after_listen os attached ended ((some e, s), n) = (some e, n)
after_listen os attached ended ((none, s), n) = serve os attached ended s n

-- `Server.Run`
unfoldable pub run : Os → Option Bytes → GrpcEnd → Server → Node → Option ServerError × Node
unfolding after_listen listen
run os attached ended s n = after_listen os attached ended (listen os s n)
