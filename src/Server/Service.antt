-- ===== src/Server/Service.antt =====
-- internal/server/service.go: the Control Input stream. The injector is a commander, or none when
-- the Server has no tmux; `hub` is what `hub.get` reads at the time.
use shevet.Prelude.{
  ℕ, ◌+◌, ◌%◌, ◌^◌, Bool, true, false, ◌&&◌, ◌||◌, Option, none, some, List, [], ◌∷◌, ◌++◌, ltb,
  ◌==◌, if◌then◌else◌, length, pos, ltb_ℤ, Bytes, codes,
}
use shevet.Prelude.Maps.{Entries, lookup, insert, delete}
use shevet.Inject.{Commander, keys, resize}
use shevet.Server.Hub.{WatchedPane, Hub}
use shevet.Grid.{Size}

-- The message `InputEvent`, by the case of its oneof.
pub data InputEvent : Type 0 where
  key_bytes : (pane data' : Bytes) → InputEvent
  resize_request : (pane : Bytes) → (width height : ℕ) → InputEvent
  restore_request : (pane : Bytes) → InputEvent
  unknown_event : InputEvent

-- How a stream ends, if no event ends it with an error: the Client closes it, it breaks, or the Server
-- shuts down.
pub data StreamEnd : Type 0 where
  closed : StreamEnd
  broken_stream : Bytes → StreamEnd
  shut_down : StreamEnd

abbrev pub end_error : StreamEnd → Option Bytes
end_error closed = none
end_error (broken_stream e) = some e
end_error shut_down = none

-- Whether `injectCtx` is canceled then: the context of a broken stream is, and that of the Server.
abbrev pub is_canceled : StreamEnd → Bool
is_canceled closed = false
is_canceled (broken_stream e) = true
is_canceled shut_down = true

abbrev pub first_error : Option Bytes → Option Bytes → Option Bytes
first_error none last = last
first_error (some e) last = some e

-- What an event handler reads and changes: the sizes that the stream displaced, and its summary.
pub record Stream (W : Type 0) : Type 0 where
  pub tmux : W
  pub saved : Entries Size
  pub events : ℕ
  pub bytes : ℕ

-- `maxResizeDim`
abbrev pub max_resize_dim : ℕ
max_resize_dim = 10000

abbrev pub is_refused : ℕ → ℕ → Bool
is_refused w h = w == 0 || h == 0 || ltb max_resize_dim w || ltb max_resize_dim h

abbrev pub has_entry : {A : Type 0} → Option A → Bool
has_entry none = false
has_entry (some a) = true

-- The size that a first resize displaces is recorded; a pane without one yet records nothing.
unfoldable pub record_size : Bytes → WatchedPane → Entries Size → Entries Size
unfolding lookup insert
record_size id wp saved =
    if has_entry (lookup id saved)
    then saved
    else if ltb_ℤ (pos 0) wp.width && ltb_ℤ (pos 0) wp.height
    then insert id (record { w = wp.width; h = wp.height }) saved
    else saved

module _ {W : Type 0} where
  -- The status of a command that failed, or one more event in the summary.
  unfoldable pub tally : Bytes → ℕ → Option Bytes × W → Stream W → Option Bytes × Stream W
  tally what n (some e, t) s = (some (what ++ (codes ": " ++ e)), record s { tmux = t })
  tally what n (none, t) s = (
    none,
    record s { tmux = t; events = (s.events + 1) % 2 ^ 64; bytes = (s.bytes + n) % 2 ^ 64 },
  )

  unfoldable pub inject_data :
      Option (Commander W) → Bytes → Bytes → Stream W → Option Bytes × Stream W
  unfolding tally keys
  inject_data none id data' s = (some (codes "server has no tmux attachment to inject input"), s)
  inject_data (some c) id data' s =
      tally (codes "inject into pane " ++ id) (length data') (keys c id data' s.tmux) s

  -- `injectKeys`
  unfoldable pub inject_keys :
      Option (Commander W) → Hub → Bytes → Bytes → Stream W → Option Bytes × Stream W
  unfolding inject_data lookup
  inject_keys injector hub id data' s =
      let done = inject_data injector id data' s in
      if has_entry (lookup id hub) then done else (none, s)

  unfoldable pub resize_known :
      Option (Commander W) → Bytes → ℕ → ℕ → Option WatchedPane → Stream W → Option Bytes × Stream W
  unfolding tally record_size resize
  resize_known injector id w h none s = (none, s)
  resize_known none id w h (some wp) s =
      (some (codes "server has no tmux attachment to resize panes"), s)
  resize_known (some c) id w h (some wp) s =
      tally (codes "resize pane " ++ id) 0 (resize c id (pos w) (pos h) s.tmux)
        (record s { saved = record_size id wp s.saved })

  -- `injectResize`
  unfoldable pub inject_resize :
      Option (Commander W) → Hub → Bytes → ℕ → ℕ → Stream W → Option Bytes × Stream W
  unfolding resize_known lookup
  inject_resize injector hub id w h s =
      let done = resize_known injector id w h (lookup id hub) s in
      if is_refused w h then (none, s) else done

  unfoldable pub restore_to :
      Option (Commander W) → Bytes → Size → Option WatchedPane → Stream W → Option Bytes × Stream W
  unfolding tally resize
  restore_to injector id size none s = (none, s)
  restore_to none id size (some wp) s =
      (some (codes "server has no tmux attachment to resize panes"), s)
  restore_to (some c) id size (some wp) s =
      tally (codes "restore pane " ++ id) 0 (resize c id size.w size.h s.tmux) s

  unfoldable pub restore_saved :
      Option (Commander W) → Hub → Bytes → Option Size → Stream W → Option Bytes × Stream W
  unfolding restore_to delete lookup
  restore_saved injector hub id none s = (none, s)
  restore_saved injector hub id (some size) s =
      restore_to injector id size (lookup id hub) (record s { saved = delete id s.saved })

  -- `injectRestore`
  unfoldable pub inject_restore :
      Option (Commander W) → Hub → Bytes → Stream W → Option Bytes × Stream W
  unfolding restore_saved lookup
  inject_restore injector hub id s = restore_saved injector hub id (lookup id s.saved) s

  -- `injectEvent`
  unfoldable pub inject_event :
      Option (Commander W) → Hub → InputEvent → Stream W → Option Bytes × Stream W
  unfolding inject_keys inject_resize inject_restore
  inject_event injector hub (key_bytes id data') s = inject_keys injector hub id data' s
  inject_event injector hub (resize_request id w h) s = inject_resize injector hub id w h s
  inject_event injector hub (restore_request id) s = inject_restore injector hub id s
  inject_event injector hub unknown_event s = (none, s)

  unfoldable pub restore_one : Option (Commander W) → Bytes → Size → Option WatchedPane → W → W
  unfolding resize
  restore_one injector id size none t = t
  restore_one none id size (some wp) t = t
  restore_one (some c) id size (some wp) t = (resize c id size.w size.h t).1

  -- `restoreAll`; an error of one pane is not looked at. The hub is read before each.
  unfoldable pub restore_all : Option (Commander W) → (W → Hub) → Entries Size → W → W
  unfolding restore_one lookup
  restore_all injector hub [] t = t
  restore_all injector hub ((id, size) ∷ rest) t =
      restore_all injector hub rest (restore_one injector id size (lookup id (hub t)) t)

  -- The loop of `SendInput` over what it receives, up to the first error.
  unfoldable pub next_event :
      Option Bytes × Stream W → (Stream W → Option Bytes × Stream W) → Option Bytes × Stream W
  next_event (some e, s) next = (some e, s)
  next_event (none, s) next = next s

  -- Before an event arrives, the rest of the world goes on by `outside`.
  unfoldable pub drain :
      Option (Commander W)
      → (W → Hub)
      → (W → W)
      → List InputEvent
      → Stream W
      → Option Bytes × Stream W
  unfolding inject_event next_event
  drain injector hub outside [] s = (none, s)
  drain injector hub outside (ev ∷ evs) s =
      let s' = record s { tmux = outside s.tmux } in
      next_event (inject_event injector (hub s'.tmux) ev s') (drain injector hub outside evs)

  -- The rest of `SendInput` behind its loop: its error, and the panes restored. With its context
  -- canceled the commands of the restores are those of `canceled`.
  unfoldable pub finish :
      Option (Commander W)
      → Option (Commander W)
      → (W → Hub)
      → StreamEnd
      → Option Bytes × Stream W
      → Option Bytes × Stream W
  unfolding restore_all
  finish injector canceled hub ending (err, s) = (
    first_error err (end_error ending),
    record s {
      tmux = restore_all (if is_canceled ending then canceled else injector) hub s.saved s.tmux;
    },
  )

  -- `SendInput`, which receives events and then an end. `W` is all that is outside of the stream:
  -- tmux, and the hub as the watcher has it then, which need not be what tmux has.
  unfoldable pub send_input :
      Option (Commander W)
      → Option (Commander W)
      → (W → Hub)
      → (W → W)
      → StreamEnd
      → List InputEvent
      → W
      → Option Bytes × Stream W
  unfolding drain finish
  send_input injector canceled hub outside ending evs t =
      finish injector canceled hub ending
        (drain injector hub outside evs (record { tmux = t; saved = []; events = 0; bytes = 0 }))
