-- ===== src/Server/Socket/Alone.antt =====
-- internal/server/server.go: what `listenUnix` may take, and that no two Servers accept on one socket.
use mathlib.Core.Path.{subst}
use shevet.Prelude.{
  ℕ, ◌≡◌, refl, sym, Bool, true, false, not, ◌&&◌, Option, none, some, [], ◌∷◌, if◌then◌else◌,
  if_cases, Bytes,
}
use shevet.Server.Socket.{
  Node, nothing, other_file, socket_file, Os, ServerError, empty_path, create_directory,
  inspect_socket, not_a_socket, server_already_listening, remove_stale, listen_on,
  restrict_permissions, clear_stale_socket, bind, close_listener, private_mode, restrict,
  after_clear, listen_unix,
}

-- What a Server must leave alone: a file that is no socket, and a socket with a Server behind it.
unfoldable pub is_taken : Node → Bool
is_taken nothing = false
is_taken other_file = true
is_taken (socket_file mode live) = live

-- What `clearStaleSocket` may do: refuse, or find the path free.
data Cleared (n : Node) : Option ServerError × Node → Type 0 where
  kept : (e : ServerError) → Cleared n (some e, n)
  free : is_taken n ≡ false → Cleared n (none, nothing)

-- What `listenUnix` may do: leave all as it is, or where nothing was taken, fail with the path free or
-- with a socket that nobody serves, or accept on a socket of the owner's.
pub data Outcome (n : Node) : Option ServerError × Node → Type 0 where
  refused : (e : ServerError) → Outcome n (some e, n)
  cleared : is_taken n ≡ false → (e : ServerError) → Outcome n (some e, nothing)
  left_over :
      is_taken n ≡ false
      → (e : ServerError) → (mode : ℕ) → Outcome n (some e, socket_file mode false)
  bound : is_taken n ≡ false → Outcome n (none, socket_file private_mode true)

probe-Cleared :
    (os : Os) (mode : ℕ) (live : Bool)
    → os.dial_fails ≡ false
    → Cleared (socket_file mode live) (
        if live && not os.dial_fails
        then (some server_already_listening, socket_file mode live)
        else if os.remove_fails
        then (some remove_stale, socket_file mode live)
        else (none, nothing))
unfolding is_taken
probe-Cleared os mode true d =
    subst
      (λ b. Cleared (socket_file mode true) (
        if not b
        then (some server_already_listening, socket_file mode true)
        else if os.remove_fails
        then (some remove_stale, socket_file mode true)
        else (none, nothing)))
      (sym d) (kept server_already_listening)
probe-Cleared os mode false d =
    if_cases (Cleared (socket_file mode false)) os.remove_fails _ _ (λ h. kept remove_stale)
      (λ h. free refl)

clear-Cleared : (os : Os) (n : Node) → os.dial_fails ≡ false → Cleared n (clear_stale_socket os n)
unfolding is_taken clear_stale_socket
clear-Cleared os nothing d = lstat os.lstat_fails
  where
    lstat : (b : Bool) → Cleared nothing (if b then some inspect_socket else none, nothing)
    lstat true = kept inspect_socket
    lstat false = free refl
clear-Cleared os other_file d = kept (if os.lstat_fails then inspect_socket else not_a_socket)
clear-Cleared os (socket_file mode live) d =
    if_cases (Cleared (socket_file mode live)) os.lstat_fails _ _ (λ h. kept inspect_socket)
      (λ h. probe-Cleared os mode live d)

restrict-Outcome :
    (os : Os) (n : Node)
    → is_taken n ≡ false
    → Outcome n (restrict os (none, socket_file os.fresh_mode true))
unfolding restrict close_listener
restrict-Outcome os n h =
    if_cases (Outcome n) os.chmod_fails _ _ (λ c. closed os.remove_fails) (λ c. bound h)
  where
    closed :
        (b : Bool)
        → Outcome n
            (some restrict_permissions, if b then socket_file os.fresh_mode false else nothing)
    closed true = left_over h restrict_permissions os.fresh_mode
    closed false = cleared h restrict_permissions

bind-Outcome : (os : Os) (n : Node) → is_taken n ≡ false → Outcome n (restrict os (bind os nothing))
unfolding bind restrict
bind-Outcome os n h =
    if_cases (λ r. Outcome n (restrict os r)) os.listen_fails _ _ (λ f. cleared h listen_on)
      (λ f. restrict-Outcome os n h)

after_clear-Outcome :
    (os : Os) (n : Node) (r : Option ServerError × Node)
    → Cleared n r
    → Outcome n (after_clear os r)
unfolding after_clear
after_clear-Outcome os n r (kept e) = refused e
after_clear-Outcome os n r (free h) = bind-Outcome os n h

-- Unless a dial of a live socket fails, `listenUnix` leaves a file that is no socket, and the socket of
-- a Server that accepts, as they are and fails; else it accepts on a socket that only the owner may
-- use, or fails and leaves nothing that accepts.
pub listen_unix-Outcome :
    (os : Os) (path : Bytes) (n : Node) → os.dial_fails ≡ false → Outcome n (listen_unix os path n)
unfolding listen_unix
listen_unix-Outcome os [] n d = refused empty_path
listen_unix-Outcome os (c ∷ path) n d =
    if_cases (Outcome n) os.mkdir_fails _ _ (λ h. refused create_directory)
      (λ h. after_clear-Outcome os n (clear_stale_socket os n) (clear-Cleared os n d))
