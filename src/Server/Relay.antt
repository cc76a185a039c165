-- ===== src/Server/Relay.antt =====
-- internal/server/service.go: WatchPane sends a subscriber's updates as messages, and what a Client
-- makes of them.
use mathlib.Core.Path.{ap₂}
use shevet.Prelude.{
  ◌≡◌, refl, ap, ◌∙◌, Bool, true, false, Option, none, some, List, [], ◌∷◌, ◌++◌, append_assoc,
  if◌then◌else◌, All,
}
use shevet.Grid.{Cursor, Size, CellPatch, new, apply_all}
use shevet.Wire.{uint32, damage_to_proto}
use shevet.Wire.RoundTrip.{FitsWord, FitsWire, CursorFits, uint32_fits, damage_round_trip}
use shevet.Client.{
  UpdateMessage, resized_message, damage_message, exited_message, PaneView, new_view, apply_update,
  recv, watch,
}
use shevet.Pipeline.Subscribers.{RenderUpdate, Subscriber}
use shevet.Pipeline.Views.{
  shown_damage, shown_resize, shown, shown_all, view_after, view_after-exited,
}

abbrev pub resized_part : Option Size → List UpdateMessage
resized_part none = []
resized_part (some s) = resized_message (uint32 s.w) (uint32 s.h) ∷ []

abbrev pub damage_part : Cursor → Option (List CellPatch) → List UpdateMessage
damage_part c none = []
damage_part c (some ps) = damage_message (damage_to_proto ps c) ∷ []

-- `sendUpdate`: a resize, then damage.
unfoldable pub send_update : RenderUpdate → List UpdateMessage
unfolding uint32 damage_to_proto
send_update u = resized_part u.resized ++ damage_part u.cursor u.damage

-- `WatchPane` over a channel that closes: its updates in order, and the exit, if the Pane left.
unfoldable pub relay : List RenderUpdate → Bool → List UpdateMessage
unfolding send_update
relay [] exited = if exited then exited_message ∷ [] else []
relay (u ∷ us) exited = send_update u ++ relay us exited

abbrev pub SizeFits : Option Size → Type 0
SizeFits none = Unit {0}
SizeFits (some s) = FitsWord s.w × FitsWord s.h

abbrev pub DamageFits : Cursor → Option (List CellPatch) → Type 0
DamageFits c none = Unit {0}
DamageFits c (some ps) = All FitsWire ps × CursorFits c

-- An update whose numbers fit their messages.
abbrev pub UpdateFits : RenderUpdate → Type 0
UpdateFits u = SizeFits u.resized × DamageFits u.cursor u.damage

watch-damage_part :
    (v : PaneView) (c : Cursor) (d : Option (List CellPatch)) (ms : List UpdateMessage)
    → DamageFits c d
    → watch v (damage_part c d ++ ms) ≡ watch (shown_damage v c d) ms
unfolding watch apply_update recv
watch-damage_part v c none ms h = refl
watch-damage_part v c (some ps) ms h =
    ap (λ p. watch (record v { grid = apply_all v.grid p.0; cursor = p.1 }) ms)
      (damage_round_trip ps c h.0 h.1)

watch-resized_part :
    (v : PaneView) (o : Option Size) (ms : List UpdateMessage)
    → SizeFits o
    → watch v (resized_part o ++ ms) ≡ watch (shown_resize v o) ms
unfolding watch apply_update recv
watch-resized_part v none ms h = refl
watch-resized_part v (some s) ms h =
    ap₂ (λ a b. watch (record v { grid = new a b }) ms) (uint32_fits s.w h.0) (uint32_fits s.h h.1)

watch-send_update :
    (v : PaneView) (u : RenderUpdate) (ms : List UpdateMessage)
    → UpdateFits u
    → watch v (send_update u ++ ms) ≡ watch (shown v u) ms
unfolding send_update shown
watch-send_update v u ms h =
    ap (watch v) (append_assoc (resized_part u.resized) (damage_part u.cursor u.damage) ms)
    ∙ (watch-resized_part v u.resized (damage_part u.cursor u.damage ++ ms) h.0
        ∙ watch-damage_part (shown_resize v u.resized) u.cursor u.damage ms h.1)

watch-relay :
    (v : PaneView) (us : List RenderUpdate) (exited : Bool)
    → All UpdateFits us
    → watch v (relay us exited)
      ≡ watch (shown_all v us) (if exited then exited_message ∷ [] else [])
unfolding relay shown_all
watch-relay v [] exited h = refl
watch-relay v (u ∷ us) exited h =
    watch-send_update v u (relay us exited) h.0 ∙ watch-relay (shown v u) us exited h.1

watch-end :
    (v : PaneView) (exited : Bool)
    → v.exited ≡ false
    → watch v (if exited then exited_message ∷ [] else []) ≡ some (record v { exited = exited })
unfolding watch apply_update recv
watch-end v true h = refl
watch-end v false h = λ i. some (record v { exited = h i })

-- A Client that watches a Pane to the end reads every message without an error, and then shows what
-- the subscriber's updates show, in their order, and that the Pane has exited exactly if it has. The
-- numbers of the updates fit their messages.
pub watch-relay_shows :
    (s : Subscriber)
    → All UpdateFits (s.received ++ s.queue)
    → watch new_view (relay (s.received ++ s.queue) s.exited)
      ≡ some (record (view_after s) { exited = s.exited })
unfolding view_after
watch-relay_shows s h =
    watch-relay new_view (s.received ++ s.queue) s.exited h
    ∙ watch-end (view_after s) s.exited (view_after-exited s)
