-- ===== src/Server/Socket/Many.antt =====
-- internal/server/server.go: Servers that start, end and crash on one socket, one step after another.
use shevet.Prelude.{
  ℕ, suc, zero, ◌+◌, ◌≡◌, refl, sym, ap, ◌∙◌, ◌⊎◌, inl, inr, Bool, true, false, Option, none, some,
  List, [], ◌∷◌, arith, if◌then◌else◌, if_false, if_cases, Bytes,
}
use shevet.Server.Socket.{
  Node, nothing, other_file, socket_file, Os, ServerError, is_live, close_listener, remove_quietly,
  listen_unix, serve_rpc, serve_attached, GrpcEnd, graceful,
}
use shevet.Server.Socket.Alone.{
  is_taken, Outcome, refused, cleared, left_over, bound, listen_unix-Outcome,
}

-- What stands at the path, the number of Servers that accept on it, and of those that have closed their
-- listener but not removed the file yet.
pub record World : Type 0 where
  pub node : Node
  pub serving : ℕ
  pub stopping : ℕ

-- A Server starts; closes its listener, as `Serve` ends; removes the file, behind that; fails to attach
-- to tmux, removes the file and exits; or is killed, while it serves or while it stops.
pub data Event : Type 0 where
  starts : Event
  closes : GrpcEnd → Event
  removes : Event
  cannot_attach : Bytes → Event
  killed : Event
  killed_stopping : Event

-- The end of a process, whose sockets nobody serves from then on.
unfoldable pub process_exit : Node → Node
process_exit nothing = nothing
process_exit other_file = other_file
process_exit (socket_file mode live) = socket_file mode false

unfoldable pub started : World → Option ServerError × Node → World
started w (none, node) = record w { node = node; serving = suc w.serving }
started w (some e, node) = record w { node = node }

-- One Server fewer that serves, with `more` that stop.
unfoldable pub leave_one : Node → ℕ → ℕ → World → World
leave_one node more zero w = w
leave_one node more (suc s) w = record w { node = node; serving = s; stopping = w.stopping + more }

-- One Server fewer that stops.
unfoldable pub stop_one : Node → ℕ → World → World
stop_one node zero w = w
stop_one node (suc s) w = record w { node = node; stopping = s }

unfoldable pub step : Bytes → Os → Event → World → World
unfolding started leave_one stop_one process_exit listen_unix serve_rpc serve_attached
    remove_quietly
step path os starts w = started w (listen_unix os path w.node)
step path os (closes ended) w = leave_one (serve_rpc os none ended w.node).1 1 w.serving w
step path os removes w = stop_one (remove_quietly os w.node) w.stopping w
step path os (cannot_attach e) w =
    leave_one (process_exit (serve_attached os (some e) graceful w.node).1) 0 w.serving w
step path os killed w = leave_one (process_exit w.node) 0 w.serving w
step path os killed_stopping w = stop_one w.node w.stopping w

unfoldable pub steps : Bytes → List (Os × Event) → World → World
unfolding step
steps path [] w = w
steps path ((os, e) ∷ es) w = steps path es (step path os e w)

-- As many Servers accept as the socket at the path has: one or none; and none while one stops.
pub record OneServes (w : World) : Type 0 where
  pub counted : w.serving ≡ (if is_live w.node then 1 else 0)
  pub alone : (w.stopping ≡ 0) ⊎ (is_live w.node ≡ false)

-- No Server starts between the close of another's listener and its removal of the file.
abbrev Waits : Event → World → Type 0
Waits starts w = w.stopping ≡ 0
Waits (closes ended) w = Unit
Waits removes w = Unit
Waits (cannot_attach e) w = Unit
Waits killed w = Unit
Waits killed_stopping w = Unit

-- So it is at each step, and no dial of a socket that a Server accepts on fails.
unfoldable pub Orderly : Bytes → List (Os × Event) → World → Type 0
Orderly path [] w = Unit
Orderly path ((os, e) ∷ es) w =
    (os.dial_fails ≡ false) × Waits e w × Orderly path es (step path os e w)

exit-dead : (n : Node) → is_live (process_exit n) ≡ false
unfolding is_live process_exit
exit-dead nothing = refl
exit-dead other_file = refl
exit-dead (socket_file mode live) = refl

close-dead : (os : Os) (n : Node) → is_live (close_listener os n) ≡ false
unfolding is_live close_listener
close-dead os nothing = refl
close-dead os other_file =
    if_cases (λ n. is_live n ≡ false) os.remove_fails _ _ (λ h. refl) (λ h. refl)
close-dead os (socket_file mode live) =
    if_cases (λ n. is_live n ≡ false) os.remove_fails _ _ (λ h. refl) (λ h. refl)

remove-dead : (os : Os) (n : Node) → is_live n ≡ false → is_live (remove_quietly os n) ≡ false
unfolding is_live remove_quietly
remove-dead os n h =
    if_cases (λ n. is_live n ≡ false) os.remove_fails n nothing (λ _. h) (λ _. refl)

live-taken : (n : Node) → is_taken n ≡ false → is_live n ≡ false
unfolding is_live is_taken
live-taken nothing h = refl
live-taken other_file h = refl
live-taken (socket_file mode live) h = h

-- A world whose socket nobody accepts on, with none that serves.
gone : (w : World) → w.serving ≡ 0 → is_live w.node ≡ false → OneServes w
gone w s d = record { counted = s ∙ sym (if_false (is_live w.node) 1 0 d); alone = inr d }

none_serves : (w : World) → is_live w.node ≡ false → OneServes w → w.serving ≡ 0
none_serves w d h = h.counted ∙ if_false (is_live w.node) 1 0 d

started-OneServes :
    (w : World) (r : Option ServerError × Node)
    → w.stopping ≡ 0
    → OneServes w
    → Outcome w.node r
    → OneServes (started w r)
unfolding started is_live
started-OneServes w r q h (refused e) = h
started-OneServes w r q h (cleared f e) = record {
  counted = none_serves w (live-taken w.node f) h;
  alone = inl q;
}
started-OneServes w r q h (left_over f e mode) = record {
  counted = none_serves w (live-taken w.node f) h;
  alone = inl q;
}
started-OneServes w r q h (bound f) = record {
  counted = ap suc (none_serves w (live-taken w.node f) h);
  alone = inl q;
}

one_fewer : (b : Bool) (n : ℕ) → suc n ≡ (if b then 1 else 0) → n ≡ 0
one_fewer true n h = omega arith
one_fewer false n h = omega arith

leave_one-OneServes :
    (node : Node) (more s : ℕ) (w : World)
    → is_live node ≡ false
    → w.serving ≡ s
    → OneServes w
    → OneServes (leave_one node more s w)
unfolding leave_one
leave_one-OneServes node more zero w d e h = h
leave_one-OneServes node more (suc s) w d e h =
    gone (record w { node = node; serving = s; stopping = w.stopping + more })
      (one_fewer (is_live w.node) s (sym e ∙ h.counted)) d

-- Where a Server stops, nobody accepts.
dead_while : (w : World) (s : ℕ) → w.stopping ≡ suc s → OneServes w → is_live w.node ≡ false
dead_while w s e h = elim h.alone [ inl z ↦ absurd (omega (arith, sym e ∙ z)) | inr d ↦ d ]

stop_one-OneServes :
    (node : Node) (s : ℕ) (w : World)
    → (is_live w.node ≡ false → is_live node ≡ false)
    → w.stopping ≡ s
    → OneServes w
    → OneServes (stop_one node s w)
unfolding stop_one
stop_one-OneServes node zero w d e h = h
stop_one-OneServes node (suc s) w d e h =
    let dead = dead_while w s e h in
    gone (record w { node = node; stopping = s }) (none_serves w dead h) (d dead)

step-OneServes :
    (path : Bytes) (os : Os) (e : Event) (w : World)
    → os.dial_fails ≡ false
    → Waits e w
    → OneServes w
    → OneServes (step path os e w)
unfolding step
step-OneServes path os starts w d q h =
    started-OneServes w (listen_unix os path w.node) q h (listen_unix-Outcome os path w.node d)
step-OneServes path os (closes ended) w d q h =
    leave_one-OneServes (serve_rpc os none ended w.node).1 1 w.serving w (close-dead os w.node) refl
      h
step-OneServes path os removes w d q h =
    stop_one-OneServes (remove_quietly os w.node) w.stopping w (remove-dead os w.node) refl h
step-OneServes path os (cannot_attach e) w d q h =
    let left = (serve_attached os (some e) graceful w.node).1 in
    leave_one-OneServes (process_exit left) 0 w.serving w (exit-dead left) refl h
step-OneServes path os killed w d q h =
    leave_one-OneServes (process_exit w.node) 0 w.serving w (exit-dead w.node) refl h
step-OneServes path os killed_stopping w d q h =
    stop_one-OneServes w.node w.stopping w (λ h. h) refl h

-- However Servers start, stop and are killed on one socket, and whatever else fails: as long as none
-- starts between the close of another's listener and its removal of the file, and no dial of a socket
-- that a Server accepts on fails, as many accept as the socket at the path has, which is at most one,
-- and none while one stops, if that held at first.
pub steps-OneServes :
    (path : Bytes) (es : List (Os × Event)) (w : World)
    → Orderly path es w
    → OneServes w
    → OneServes (steps path es w)
unfolding steps Orderly
steps-OneServes path [] w a h = h
steps-OneServes path ((os, e) ∷ es) w (d, q, a) h =
    steps-OneServes path es (step path os e w) a (step-OneServes path os e w d q h)
