-- ===== src/Server/Restored.antt =====
-- internal/server/service.go: a stream that ends leaves the sizes that it found.
use mathlib.Core.Path.{subst}
use shevet.Prelude.{
  ℕ, ◌≡◌, refl, sym, ◌∙◌, ◌≢◌, inl, inr, true, false, Option, none, some, List, [], ◌∷◌, ◌++◌,
  arith, if_cases, All, pos, Bytes, codes,
}
use shevet.Prelude.Maps.{Entries, lookup, delete, bytes_ne, bytes_cases, lookup-delete_ne}
use shevet.Inject.{Commander, resize}
use shevet.Server.Hub.{WatchedPane, Hub}
use shevet.Server.Service.{
  StreamEnd, is_canceled, finish, Stream, is_refused, key_bytes, resize_request, restore_request,
  unknown_event, InputEvent, InputEvent, key_bytes, resize_request, restore_request, unknown_event,
  Stream, is_refused, record_size, resize_known, inject_resize, restore_to, restore_saved,
  inject_restore, inject_event, restore_one, restore_all, next_event, drain, send_input,
}
use shevet.Server.Sizes.{in_range, TmuxLaws, All-delete, All-lookup, resize-sets, resize-keeps}
use shevet.Server.Origins.{
  Origins-same, no_size, Origins, Keeps, Positive, tally-Keeps, inject_keys-Keeps, there-resize,
  resize-Origins,
}
use shevet.Grid.{Size}

module _ {W : Type 0} (command : Commander W) (hub : W → Hub) (outside : W → W)
    (size : Bytes → W → Option Size) (laws : TmuxLaws W command hub outside size) (start : W) where
  abbrev Origin : Entries Size → W → Type 0
  Origin = Origins command hub outside size laws start

  abbrev Kept : Stream W → Type 0
  Kept = Keeps command hub outside size laws start

  -- A resize of a pane without a record finds in the hub the size that tmux has.
  abbrev pub FreshAt : InputEvent → Stream W → Type 0
  FreshAt (key_bytes id data') s = Unit
  FreshAt (resize_request id w h) s =
      (wp : WatchedPane)
      → lookup id (hub s.tmux) ≡ some wp
      → lookup id s.saved ≡ none
      → size id s.tmux ≡ some (record { w = wp.width; h = wp.height })
  FreshAt (restore_request id) s = Unit
  FreshAt unknown_event s = Unit

  -- So it is at each event of the stream, up to the first that fails.
  unfoldable pub Fresh : List InputEvent → Stream W → Type 0
  unfolding inject_event
  Fresh [] s = Unit
  Fresh (ev ∷ evs) s =
      let s' = record s { tmux = outside s.tmux } in
      FreshAt ev s' × Fresh evs (inject_event (some command) (hub s'.tmux) ev s').1

  resize_known-Kept :
      (id : Bytes) (w h : ℕ) (o : Option WatchedPane) (s : Stream W)
      → in_range (pos w) (pos h) ≡ true
      → Positive command hub outside size laws start
      → FreshAt (resize_request id w h) s
      → lookup id (hub s.tmux) ≡ o
      → Kept s
      → Kept (resize_known (some command) id w h o s).1
  unfolding resize_known
  resize_known-Kept id w h none s r p f e k = k
  resize_known-Kept id w h (some wp) s r p f e k =
      tally-Keeps command hub outside size laws start (codes "resize pane " ++ id) 0
        (resize command id (pos w) (pos h) s.tmux) (record s { saved = record_size id wp s.saved })
        (resize-Origins command hub outside size laws start s.saved s.tmux id (pos w) (pos h) wp r p
          e (f wp e) k)

  inject_resize-Kept :
      (id : Bytes) (w h : ℕ) (s : Stream W)
      → Positive command hub outside size laws start
      → FreshAt (resize_request id w h) s
      → Kept s
      → Kept (inject_resize (some command) (hub s.tmux) id w h s).1
  unfolding inject_resize
  inject_resize-Kept id w h s p f k =
      if_cases (λ x. Kept x.1) (is_refused w h) (none, s)
        (resize_known (some command) id w h (lookup id (hub s.tmux)) s) (λ _. k)
        (λ n. resize_known-Kept id w h (lookup id (hub s.tmux)) s (allowed n) p f refl k)
    where
      allowed : is_refused w h ≡ false → in_range (pos w) (pos h) ≡ true
      allowed n = ground arith

  -- A pane that gets its first size back needs no record.
  restored-Origin :
      (saved left : Entries Size) (t : W) (id : Bytes) (s s' : Size)
      → in_range s.w s.h ≡ true
      → size id start ≡ some s
      → size id t ≡ some s'
      → ((j : Bytes) → id ≢ j → lookup j left ≡ lookup j saved)
      → All (λ e. size e.0 start ≡ some e.1) left
      → Origin saved t
      → Origin left (resize command id s.w s.h t).1
  restored-Origin saved left t id s s' r first here others kept o = record {
    recorded = kept;
    free = λ j f. elim (bytes_cases id j) [
      | inl same ↦
          subst (λ x. size x (resize command id s.w s.h t).1 ≡ size x start) same
            (resize-sets command hub outside size laws id s.w s.h t s' r here ∙ sym first)
      | inr other ↦
          resize-keeps command hub outside size laws id j s.w s.h t other
          ∙ o.free j (sym (others j other) ∙ f)
    ];
    there = there-resize command hub outside size laws start saved t id s.w s.h s' r here o;
  }

  restore_to-Kept :
      (id : Bytes) (s : Stream W) (v : Size) (o : Option WatchedPane)
      → Positive command hub outside size laws start
      → lookup id (hub s.tmux) ≡ o
      → lookup id s.saved ≡ some v
      → Kept s
      → Kept (restore_to (some command) id v o (record s { saved = delete id s.saved })).1
  unfolding restore_to
  restore_to-Kept id s v none p e f k =
      let first = All-lookup (λ e. size e.0 start ≡ some e.1) id v s.saved k.recorded f in
      let (v', g) = k.there id v first in absurd (no_size v' (sym (laws.misses id s.tmux e) ∙ g))
  restore_to-Kept id s v (some wp) p e f k =
      let first = All-lookup (λ e. size e.0 start ≡ some e.1) id v s.saved k.recorded f in
      let (now, here) = laws.there id wp s.tmux e in
      tally-Keeps command hub outside size laws start (codes "restore pane " ++ id) 0
        (resize command id v.w v.h s.tmux) (record s { saved = delete id s.saved })
        (restored-Origin s.saved (delete id s.saved) s.tmux id v now (p id v first) first here
          (λ j other. lookup-delete_ne id j s.saved other)
          (All-delete (λ e. size e.0 start ≡ some e.1) id s.saved k.recorded) k)

  restore_saved-Kept :
      (id : Bytes) (o : Option Size) (s : Stream W)
      → Positive command hub outside size laws start
      → lookup id s.saved ≡ o
      → Kept s
      → Kept (restore_saved (some command) (hub s.tmux) id o s).1
  unfolding restore_saved
  restore_saved-Kept id none s p e k = k
  restore_saved-Kept id (some v) s p e k =
      restore_to-Kept id s v (lookup id (hub s.tmux)) p refl e k

  inject_event-Kept :
      (ev : InputEvent) (s : Stream W)
      → Positive command hub outside size laws start
      → FreshAt ev s
      → Kept s
      → Kept (inject_event (some command) (hub s.tmux) ev s).1
  unfolding inject_event inject_restore
  inject_event-Kept (key_bytes id data') s p f k =
      inject_keys-Keeps command hub outside size laws start (hub s.tmux) id data' s k
  inject_event-Kept (resize_request id w h) s p f k = inject_resize-Kept id w h s p f k
  inject_event-Kept (restore_request id) s p f k =
      restore_saved-Kept id (lookup id s.saved) s p refl k
  inject_event-Kept unknown_event s p f k = k

  next_event-Kept :
      (r : Option Bytes × Stream W) (next : Stream W → Option Bytes × Stream W)
      → (Kept r.1 → Kept (next r.1).1)
      → Kept r.1
      → Kept (next_event r next).1
  unfolding next_event
  next_event-Kept (some e, s) next h k = k
  next_event-Kept (none, s) next h k = h k

  outside-Kept : (s : Stream W) → Kept s → Kept (record s { tmux = outside s.tmux })
  outside-Kept s k =
      Origins-same command hub outside size laws start s.saved s.tmux (outside s.tmux)
        (λ j. laws.idle j s.tmux) k

  drain-Kept :
      (evs : List InputEvent) (s : Stream W)
      → Positive command hub outside size laws start
      → Fresh evs s
      → Kept s
      → Kept (drain (some command) hub outside evs s).1
  unfolding drain Fresh
  drain-Kept [] s p f k = k
  drain-Kept (ev ∷ evs) s p f k =
      let s' = record s { tmux = outside s.tmux } in
      let r = inject_event (some command) (hub s'.tmux) ev s' in
      next_event-Kept r (drain (some command) hub outside evs) (drain-Kept evs r.1 p f.1)
        (inject_event-Kept ev s' p f.0 (outside-Kept s k))

  restore_one-Origin :
      (id : Bytes) (v : Size) (rest : Entries Size) (t : W) (o : Option WatchedPane)
      → Positive command hub outside size laws start
      → lookup id (hub t) ≡ o
      → Origin ((id, v) ∷ rest) t
      → Origin rest (restore_one (some command) id v o t)
  unfolding restore_one
  restore_one-Origin id v rest t none p e k =
      let (v', g) = k.there id v k.recorded.0 in absurd (no_size v' (sym (laws.misses id t e) ∙ g))
  restore_one-Origin id v rest t (some wp) p e k =
      restored-Origin ((id, v) ∷ rest) rest t id v (laws.there id wp t e).0 (p id v k.recorded.0)
        k.recorded.0 (laws.there id wp t e).1 others k.recorded.1 k
    where
      others : (j : Bytes) → id ≢ j → lookup j rest ≡ lookup j ((id, v) ∷ rest)
      others j other = unfold lookup in rw (bytes_ne id j other) refl

  restore_all-size :
      (saved : Entries Size) (t : W)
      → Positive command hub outside size laws start
      → Origin saved t
      → (id : Bytes) → size id (restore_all (some command) hub saved t) ≡ size id start
  unfolding restore_all
  restore_all-size [] t p k id = k.free id (unfold lookup in refl)
  restore_all-size ((i, v) ∷ rest) t p k id =
      restore_all-size rest (restore_one (some command) i v (lookup i (hub t)) t) p
        (restore_one-Origin i v rest t (lookup i (hub t)) p refl k) id

-- However a stream goes on and ends, closed, broken or by a shutdown of the Server, with an error or
-- without one: at its end each pane has the size in tmux that it had at the beginning. The panes have
-- sizes then that tmux allows; tmux carries out such resizes of panes that are there, also those whose
-- context is canceled; nothing else resizes, starts or ends panes meanwhile; and the hub, which has
-- these panes, shows the size that tmux has for a pane whenever the stream resizes it without a
-- record, and any size else.
pub send_input-restores :
    {W : Type 0} (command canceled : Commander W) (hub : W → Hub) (outside : W → W)
    (size : Bytes → W → Option Size) (laws : TmuxLaws W command hub outside size)
    (canceled_laws : TmuxLaws W canceled hub outside size) (ending : StreamEnd)
    (evs : List InputEvent) (t : W) (id : Bytes)
    → Positive command hub outside size laws t
    → Fresh command hub outside size laws t evs
        (record { tmux = t; saved = []; events = 0; bytes = 0 })
    → size id (send_input (some command) (some canceled) hub outside ending evs t).1.tmux
      ≡ size id t
unfolding send_input finish
send_input-restores command canceled hub outside size laws canceled_laws ending evs t id p f =
    let s0 : Stream _ = record { tmux = t; saved = []; events = 0; bytes = 0 } in
    let s = (drain (some command) hub outside evs s0).1 in
    let k =
      drain-Kept command hub outside size laws t evs s0 p f
        (record { recorded = tt; free = λ j _. refl; there = λ j v e. (v, e) }) in
    if_cases (λ c. size id (restore_all c hub s.saved s.tmux) ≡ size id t) (is_canceled ending)
      (some canceled) (some command)
      (λ _.
        restore_all-size canceled hub outside size canceled_laws t s.saved s.tmux p
          (record { recorded = k.recorded; free = k.free; there = k.there }) id)
      (λ _. restore_all-size command hub outside size laws t s.saved s.tmux p k id)
