-- ===== src/Pipeline/Mirror.antt =====
-- A subscriber that does not lag holds, received or in its channel, exactly the last flushed screen.
use shevet.Prelude.{
  ℕ, ◌≤◌, ◌≡◌, refl, sym, ap, ◌∙◌, inl, inr, true, false, Option, none, some, List, [], ◌∷◌, map,
  arith, ltb, ◌==◌, ltb→lt, Bool-cases, if_true, if_false, length, length-append, All, ℤ,
}
use mathlib.Core.Bool.{false≢true}
use shevet.Grid.{Cursor, Grid, new}
use shevet.Grid.Bounds.{IsGrid}
use shevet.Client.{new_view}
use shevet.Pipeline.Subscribers.{
  RenderUpdate, Subscriber, subscriber_buffer, deliver, sync_update, resize_update, catch_up,
  flush_one, remove, take_first, read_by, deliver_changed,
}
use shevet.Pipeline.Views.{
  shown, view_of, view_after, view_after-exited, view_after-append, view_after-resync,
  view_after-take, view_after-first, shown-sync_update, shown-resize_update,
}

pub record Follows (g : Grid) (c : Cursor) (s : Subscriber) : Type 0 where
  pub mirror : s.lagged ≡ false → view_after s ≡ view_of g c
  pub bounded : length s.queue ≤ subscriber_buffer

-- An update that takes one screen to another keeps a subscriber in step, or leaves it lagging.
pub deliver-Follows :
    (g g' : Grid) (c c' : Cursor) (u : RenderUpdate) (s : Subscriber)
    → shown (view_of g c) u ≡ view_of g' c'
    → Follows g c s
    → Follows g' c' (deliver u s)
unfolding deliver
deliver-Follows g g' c c' u s e f = elim (Bool-cases (ltb (length s.queue) subscriber_buffer)) [
  | inl room ↦ rw room (record {
    mirror = λ n. view_after-append s u ∙ ap (λ v. shown v u) (f.mirror n) ∙ e;
    bounded = omega (arith, length-append s.queue (u ∷ []), ltb→lt (length s.queue) 64 room);
  })
  | inr full ↦ rw full (record { mirror = λ n. absurd (false≢true (sym n)); bounded = f.bounded })
]

-- A resync brings a lagged subscriber up to the screen, or leaves it lagging.
pub catch_up-Follows :
    (g : Grid) (c : Cursor) (s : Subscriber)
    → IsGrid g
    → s.lagged ≡ true
    → length s.queue ≤ subscriber_buffer
    → Follows g c (catch_up (sync_update g c) s)
unfolding catch_up
catch_up-Follows g c s v l b = elim (Bool-cases (ltb (length s.queue) subscriber_buffer)) [
  | inl room ↦ rw room (record {
    mirror = λ n.
        view_after-resync s (sync_update g c)
        ∙ shown-sync_update (view_after s) g c v (view_after-exited s);
    bounded =
        omega
          (arith, length-append s.queue (sync_update g c ∷ []), ltb→lt (length s.queue) 64 room);
  })
  | inr full ↦ rw full (record { mirror = λ n. absurd (false≢true (sym n ∙ l)); bounded = b })
]

flush_one_lagged :
    (ch : Option RenderUpdate) (sync : RenderUpdate) (s : Subscriber)
    → s.lagged ≡ true
    → flush_one ch sync s ≡ catch_up sync s
unfolding flush_one
flush_one_lagged ch sync s l = if_true s.lagged _ _ l

flush_one_keeping :
    (ch : Option RenderUpdate) (sync : RenderUpdate) (s : Subscriber)
    → s.lagged ≡ false
    → flush_one ch sync s ≡ deliver_changed ch s
unfolding flush_one
flush_one_keeping ch sync s l = if_false s.lagged _ _ l

-- A round of `flush` with nothing new.
flush_one-none-Follows :
    (g : Grid) (c : Cursor) (s : Subscriber)
    → IsGrid g
    → Follows g c s
    → Follows g c (flush_one none (sync_update g c) s)
flush_one-none-Follows g c s v f = elim (Bool-cases s.lagged) [
  | inl l ↦ rw (flush_one_lagged none (sync_update g c) s l) (catch_up-Follows g c s v l f.bounded)
  | inr n ↦ rw (flush_one_keeping none (sync_update g c) s n) f
]

-- A round of `flush` with the update from one screen to the next.
flush_one-some-Follows :
    (g g' : Grid) (c c' : Cursor) (u : RenderUpdate) (s : Subscriber)
    → IsGrid g'
    → shown (view_of g c) u ≡ view_of g' c'
    → Follows g c s
    → Follows g' c' (flush_one (some u) (sync_update g' c') s)
flush_one-some-Follows g g' c c' u s v e f = elim (Bool-cases s.lagged) [
  | inl l ↦
      rw (flush_one_lagged (some u) (sync_update g' c') s l)
        (catch_up-Follows g' c' s v l f.bounded)
  | inr n ↦
      rw (flush_one_keeping (some u) (sync_update g' c') s n) (deliver-Follows g g' c c' u s e f)
]

All-map {ℓ κ} :
    {A : Type ℓ} (P Q : A → Type κ) (f : A → A) (xs : List A)
    → ((x : A) → P x → Q (f x))
    → All P xs
    → All Q (map f xs)
All-map P Q f [] h hx = tt
All-map P Q f (x ∷ xs) h hx = (h x hx.0, All-map P Q f xs h hx.1)

pub flush_none-Follows :
    (g : Grid) (c : Cursor) (ss : List Subscriber)
    → IsGrid g
    → All (Follows g c) ss
    → All (Follows g c) (map (flush_one none (sync_update g c)) ss)
flush_none-Follows g c ss v h =
    All-map (Follows g c) (Follows g c) _ ss (λ s. flush_one-none-Follows g c s v) h

pub flush_some-Follows :
    (g g' : Grid) (c c' : Cursor) (u : RenderUpdate) (ss : List Subscriber)
    → IsGrid g'
    → shown (view_of g c) u ≡ view_of g' c'
    → All (Follows g c) ss
    → All (Follows g' c') (map (flush_one (some u) (sync_update g' c')) ss)
flush_some-Follows g g' c c' u ss v e h =
    All-map (Follows g c) (Follows g' c') _ ss (λ s. flush_one-some-Follows g g' c c' u s v e) h

pub resize-Follows :
    (g : Grid) (c : Cursor) (w h : ℤ) (ss : List Subscriber)
    → All (Follows g c) ss
    → All (Follows (new w h) c) (map (deliver (resize_update w h)) ss)
resize-Follows g c w h ss hs =
    All-map (Follows g c) (Follows (new w h) c) _ ss
      (λ s. deliver-Follows g (new w h) c c (resize_update w h) s (shown-resize_update g c w h)) hs

pub remove-Follows :
    (g : Grid) (c : Cursor) (k : ℕ) (ss : List Subscriber)
    → All (Follows g c) ss
    → All (Follows g c) (remove k ss)
unfolding remove
remove-Follows g c k [] h = tt
remove-Follows g c k (s ∷ ss) h = elim (Bool-cases (s.key == k)) [
  | inl e ↦ rw e h.1
  | inr n ↦ rw n (h.0, remove-Follows g c k ss h.1)
]

take_queue-Follows :
    (g : Grid) (c : Cursor) (s : Subscriber) (q : List RenderUpdate)
    → s.queue ≡ q
    → Follows g c s
    → Follows g c (take_first s q)
take_queue-Follows g c s [] e f = f
take_queue-Follows g c s (u ∷ us) e f = record {
  mirror = λ n. view_after-take s u us e ∙ f.mirror n;
  bounded = omega (arith, ap length e, f.bounded);
}

pub read_by-Follows :
    (g : Grid) (c : Cursor) (k : ℕ) (ss : List Subscriber)
    → All (Follows g c) ss
    → All (Follows g c) (read_by k ss)
unfolding read_by
read_by-Follows g c k [] h = tt
read_by-Follows g c k (s ∷ ss) h = elim (Bool-cases (s.key == k)) [
  | inl e ↦ rw e (take_queue-Follows g c s s.queue refl h.0, read_by-Follows g c k ss h.1)
  | inr n ↦ rw n (h.0, read_by-Follows g c k ss h.1)
]

-- A subscriber that has just been added: its channel holds the sync alone.
pub fresh-Follows :
    (g : Grid) (c : Cursor) (k : ℕ)
    → IsGrid g
    → Follows g c (record {
      key = k;
      received = [];
      queue = sync_update g c ∷ [];
      exited = false;
      lagged = false;
    })
fresh-Follows g c k v = record {
  mirror = λ n.
      view_after-first k (sync_update g c)
      ∙ shown-sync_update new_view g c v (unfold new_view in refl);
  bounded = omega arith;
}
