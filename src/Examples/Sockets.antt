-- ===== src/Examples/Sockets.antt =====
-- Tests and instances for internal/server/server.go.
use shevet.Prelude.{◌≡◌, refl, inl, true, false, none, some, List, [], ◌∷◌, codes}
use shevet.Server.Socket.{
  is_live, nothing, other_file, socket_file, Os, Server, graceful, broken, private_mode,
  listen_unix, listen, run, server_already_listening, not_a_socket,
}
use shevet.Server.Socket.Alone.{Outcome, listen_unix-Outcome}
use shevet.Server.Socket.Many.{
  World, Event, starts, closes, removes, killed, steps, Orderly, step, OneServes, steps-OneServes,
}
use shevet.Server.Socket.Ends.{works, run-listen_unix}

abbrev fine : Os
fine = works 493

-- Two Servers start, the first is killed, a third starts, stops and removes its file.
abbrev day : List (Os × Event)
day =
    (fine, starts)
    ∷ (fine, starts)
    ∷ (fine, killed)
    ∷ (fine, starts)
    ∷ (fine, closes (broken (codes "accept")))
    ∷ (fine, removes)
    ∷ []

abbrev morning : World
morning = record { node = nothing; serving = 0; stopping = 0 }

-- A Server that starts while another finishes its calls loses its socket to that one's removal, and a
-- third then starts beside it.
two_serve :
    (steps
      (codes "/s")
      ((fine, starts)
        ∷ (fine, closes graceful)
        ∷ (fine, starts)
        ∷ (fine, removes)
        ∷ (fine, starts)
        ∷ [])
      morning).serving
    ≡ 2
unfolding steps
two_serve = refl

tests_listen_unix :
    (listen_unix fine (codes "/s") (socket_file 384 true)
      ≡ (some server_already_listening, socket_file 384 true))
    × (listen_unix fine (codes "/s") other_file ≡ (some not_a_socket, other_file))
    × (listen_unix fine (codes "/s") (socket_file 438 false) ≡ (none, socket_file 384 true))
unfolding listen_unix
tests_listen_unix = (refl, refl, refl)

listen_unix-Outcome_example :
    Outcome (socket_file 384 true) (listen_unix fine (codes "/s") (socket_file 384 true))
listen_unix-Outcome_example = listen_unix-Outcome fine (codes "/s") (socket_file 384 true) refl

steps-OneServes_example : OneServes (steps (codes "/s") day morning)
steps-OneServes_example = steps-OneServes (codes "/s") day morning orderly one
  where
    orderly : Orderly (codes "/s") day morning
    orderly =
        unfold Orderly in
        unfold step in
        (refl, refl, (refl, refl, (refl, tt, (refl, refl, (refl, tt, (refl, tt, tt))))))

    one : OneServes morning
    one = record { counted = unfold is_live in refl; alone = inl refl }

abbrev host : Server
host = record { socket_path = codes "/s"; with_tmux = true; has_listener = false }

run-listen_unix_example :
    ((run fine (some (codes "no tmux")) graceful host (socket_file 384 false)).1 ≡ nothing)
    × (listen_unix
          (works 511)
          (codes "/s")
          (run fine (some (codes "no tmux")) graceful host (socket_file 384 false)).1
        ≡ (none, socket_file private_mode true))
run-listen_unix_example =
    run-listen_unix fine (some (codes "no tmux")) graceful host (socket_file 384 false) 511 47
      (codes "s") refl listens
  where
    listens : (listen fine host (socket_file 384 false)).0.0 ≡ none
    listens = unfold listen listen_unix in refl
