-- ===== src/Tui/Forward/Typing.antt =====
-- internal/tui/model.go to internal/inject/inject.go: keys on their way from the dashboard's queue,
-- over the Control Input stream, to the pane of tmux.
use mathlib.Core.Path.{subst, ap₂}
use shevet.Prelude.{
  ℕ, ◌+◌, ◌-◌, ◌≤◌, ◌≡◌, refl, sym, ap, ◌∙◌, true, false, Option, none, some, List, [], ◌∷◌, ◌++◌,
  append-nil, append_assoc, arith, length, Bytes,
}
use shevet.Prelude.Maps.{lookup}
use shevet.Inject.{Commander}
use shevet.Inject.Runs.{split}
use shevet.Inject.Delivery.{Screen, tmux, keys_delivers}
use shevet.Client.Input
use shevet.Server.Hub.{Hub}
use shevet.Server.Service.{
  InputEvent, key_bytes, Stream, has_entry, tally, inject_data, inject_keys, inject_event,
  next_event, drain, restore_all, send_input, finish, first_error, closed,
}
use shevet.Tui.Focus.{send_keys}
use shevet.Tui.Forward.{Turn, taken, forward_one, after_one, forward}

-- A stream that takes every message, and keeps them in order.
abbrev pub keep_event : Input.Sender (List InputEvent)
keep_event ev sent = (none, sent ++ ev ∷ [])

-- Requests with the bytes of keys for one pane, as the loop takes them.
abbrev pub key_turns : Bytes → List Bytes → List Turn
key_turns pane [] = []
key_turns pane (k ∷ ks) = taken (send_keys pane k) false ∷ key_turns pane ks

pub concat : List Bytes → Bytes
concat [] = []
concat (k ∷ ks) = k ++ concat ks

-- The tmux commands that keys need.
unfoldable pub runs : List Bytes → ℕ
runs [] = 0
runs ([] ∷ ks) = runs ks
runs ((b ∷ k) ∷ ks) = length (split (b ∷ k)) + runs ks

key_events : Bytes → List Bytes → List InputEvent
key_events pane [] = []
key_events pane ([] ∷ ks) = key_events pane ks
key_events pane ((b ∷ k) ∷ ks) = key_bytes pane (b ∷ k) ∷ key_events pane ks

forward-key_turns :
    (pane : Bytes) (ks : List Bytes) (sent : List InputEvent)
    → forward keep_event (key_turns pane ks) sent ≡ (none, sent ++ key_events pane ks)
unfolding forward forward_one after_one key_events Input.send_keys
forward-key_turns pane [] sent = rw append-nil refl
forward-key_turns pane ([] ∷ ks) sent = forward-key_turns pane ks sent
forward-key_turns pane ((b ∷ k) ∷ ks) sent =
    forward-key_turns pane ks (sent ++ key_bytes pane (b ∷ k) ∷ []) ∙ rw append_assoc refl

-- What is left of the budget and what has arrived, after some keys.
abbrev typed_to : Bytes → ℕ → Stream Screen → Stream Screen
typed_to got n s = record s { tmux = record { received = got; left = n } }

module _ (refusal pane : Bytes) (hub : Screen → Hub)
    (known : (t : Screen) → has_entry (lookup pane (hub t)) ≡ true) where
  inject_event-keys :
      (k got : Bytes) (n : ℕ) (s : Stream Screen)
      → length (split k) ≤ n
      → s.tmux ≡ record { received = got; left = n }
      → ((inject_event (some (tmux refusal pane)) (hub s.tmux) (key_bytes pane k) s).0 ≡ none)
        × ((inject_event (some (tmux refusal pane)) (hub s.tmux) (key_bytes pane k) s).1.tmux
            ≡ record { received = got ++ k; left = n - length (split k) })
        × ((inject_event (some (tmux refusal pane)) (hub s.tmux) (key_bytes pane k) s).1.saved
            ≡ s.saved)
  unfolding inject_event inject_keys inject_data tally
  inject_event-keys k got n s h e =
      rw (known s.tmux, e, keys_delivers refusal pane k got n h) (refl, refl, refl)

  -- The drain went well: the keys have arrived, and no size was recorded.
  Arrived : Bytes → ℕ → Stream Screen → Option Bytes × Stream Screen → Type 0
  Arrived got n s r =
      (r.0 ≡ none) × (r.1.tmux ≡ record { received = got; left = n }) × (r.1.saved ≡ s.saved)

  next_event-none :
      (r : Option Bytes × Stream Screen) (next : Stream Screen → Option Bytes × Stream Screen)
      → r.0 ≡ none
      → next_event r next ≡ next r.1
  unfolding next_event
  next_event-none (none, s) next h = refl
  next_event-none (some e, s) next h = absurd (ground arith)

  drain-key_events :
      (ks : List Bytes) (got : Bytes) (n : ℕ) (s : Stream Screen)
      → runs ks ≤ n
      → s.tmux ≡ record { received = got; left = n }
      → Arrived
          (got ++ concat ks)
          (n - runs ks)
          s
          (drain (some (tmux refusal pane)) hub (λ t. t) (key_events pane ks) s)
  unfolding drain key_events runs concat Arrived
  drain-key_events [] got n s h e = (refl, e ∙ rw append-nil (ground arith), refl)
  drain-key_events ([] ∷ ks) got n s h e = drain-key_events ks got n s h e
  drain-key_events ((b ∷ k) ∷ ks) got n s h e =
      let ev = key_bytes pane (b ∷ k) in
      let r = inject_event (some (tmux refusal pane)) (hub s.tmux) ev s in
      let (fine, typed, kept) = inject_event-keys (b ∷ k) got n s (omega (arith, h)) e in
      let (a, t, v) =
        drain-key_events ks (got ++ (b ∷ k)) (n - length (split (b ∷ k))) r.1 (omega (arith, h))
          typed in
      let screen : Bytes → ℕ → Screen = λ x y. record { received = x; left = y } in
      subst (Arrived (got ++ ((b ∷ k) ++ concat ks)) (n - (length (split (b ∷ k)) + runs ks)) s)
        (sym (
          next_event-none r (drain (some (tmux refusal pane)) hub (λ t. t) (key_events pane ks))
            fine))
        (a, t ∙ ap₂ screen (append_assoc got (b ∷ k) (concat ks)) (omega arith), v ∙ kept)

  -- Keys for one pane that the Server knows, forwarded in order over a stream that takes every
  -- message: if tmux takes as many commands as they have runs, the pane receives exactly their bytes
  -- in order, and no error is reported on either side.
  pub forward-types :
      (canceled : Option (Commander Screen)) (ks : List Bytes) (got : Bytes) (n : ℕ)
      → runs ks ≤ n
      → let sent = forward keep_event (key_turns pane ks) [] in
        let served =
          send_input
            (some (tmux refusal pane))
            canceled
            hub
            (λ t. t)
            closed
            sent.1
            (record { received = got; left = n }) in
        (sent.0 ≡ none)
        × (served.0 ≡ none)
        × (served.1.tmux ≡ record { received = got ++ concat ks; left = n - runs ks })
  unfolding send_input finish restore_all Arrived
  forward-types canceled ks got n h =
      let s : Stream Screen = record {
        tmux = record { received = got; left = n };
        saved = [];
        events = 0;
        bytes = 0;
      } in
      let (a, t, v) = drain-key_events ks got n s h refl in
      rw (forward-key_turns pane ks []) (
        refl,
        ap (λ e. first_error e none) a,
        ap
              (λ saved.
                restore_all (some (tmux refusal pane)) hub saved
                  (drain (some (tmux refusal pane)) hub (λ t. t) (key_events pane ks) s).1.tmux)
              v
            ∙ t,
      )
