-- ===== src/Pipeline/Timer.antt =====
-- The coalescing timer: work that waits for a flush always has one coming.
use shevet.Prelude.{
  ℕ, ◌<◌, ◌≡◌, refl, true, false, not, ◌&&◌, ◌||◌, Option, none, some, List, [], ◌∷◌, ◌++◌, map,
  arith, if_cases, length, All, ℤ, eqb_ℤ,
}
use mathlib.Core.Bool.{false≢true}
use shevet.Grid.{CellPatch, Grid, cursor_eq, new, diff}
use shevet.Emu.{Emulator}
use shevet.Pipeline.{
  Op, output, resize_to, subscribe, unsubscribe, close, Outcome, running, ended, panicked, ◌>>=◌,
  State, initial, arm, fan_out, fold_damage, folded, flush, write_batch, control, run_burst, Event,
  burst, timer, reads, step, run,
}
use shevet.Pipeline.Subscribers.{
  RenderUpdate, Subscriber, subscriber_buffer, deliver, sync_update, resize_update, catch_up,
  flush_one, any_lagged, is_nil, remove, take_first, read_by,
}
use shevet.Pipeline.Inv.{arm_lem, fan_out_lem, damage_update, changed_to}

-- If somebody watches, and the screen is dirty or somebody lags, then the timer is armed.
pub record Ticks (E : Emulator) (s : State E) : Type 0 where
  pub armed_for_work :
      ((s.dirty || any_lagged s.subs) && not (is_nil s.subs)) ≡ true → s.armed ≡ true

-- What holds of the state that an outcome goes on from, if it goes on.
abbrev pub After : {E : Emulator} → (State E → Type 0) → Outcome (State E) → Type 0
After P (running s) = P s
After P (ended ss) = Unit {0}
After P panicked = Unit {0}

-- Such a state with nothing left to flush.
pub record Settled (E : Emulator) (s : State E) : Type 0 where
  pub ticks : Ticks E s
  pub settled : s.dirty ≡ false

lagged-not-nil : (ss : List Subscriber) → any_lagged ss ≡ true → is_nil ss ≡ false
unfolding any_lagged
lagged-not-nil [] h = absurd (false≢true h)
lagged-not-nil (s ∷ ss) h = refl

any_lagged-append :
    (ss ts : List Subscriber) → any_lagged (ss ++ ts) ≡ (any_lagged ss || any_lagged ts)
unfolding any_lagged
any_lagged-append [] ts = refl
any_lagged-append (s ∷ ss) ts = ground (arith, any_lagged-append ss ts)

-- Taking a subscriber away makes nobody lag.
any_lagged-remove :
    (k : ℕ) (ss : List Subscriber) → any_lagged (remove k ss) ≡ true → any_lagged ss ≡ true
unfolding any_lagged remove
any_lagged-remove k [] h = h
any_lagged-remove k (s ∷ ss) h = ground (arith, any_lagged-remove k ss)

is_nil-remove : (k : ℕ) (ss : List Subscriber) → is_nil ss ≡ true → is_nil (remove k ss) ≡ true
unfolding remove
is_nil-remove k [] h = refl
is_nil-remove k (s ∷ ss) h = absurd (false≢true h)

take_first-lagged : (s : Subscriber) (q : List RenderUpdate) → (take_first s q).lagged ≡ s.lagged
take_first-lagged s [] = refl
take_first-lagged s (u ∷ us) = refl

any_lagged-read_by : (k : ℕ) (ss : List Subscriber) → any_lagged (read_by k ss) ≡ any_lagged ss
unfolding any_lagged read_by
any_lagged-read_by k [] = refl
any_lagged-read_by k (s ∷ ss) = ground (arith, any_lagged-read_by k ss, take_first-lagged s s.queue)

is_nil-read_by : (k : ℕ) (ss : List Subscriber) → is_nil (read_by k ss) ≡ is_nil ss
unfolding read_by
is_nil-read_by k [] = refl
is_nil-read_by k (s ∷ ss) = refl

module _ (E : Emulator) where
  bind-After :
      (P Q : State E → Type 0) (m : Outcome (State E)) (f : State E → Outcome (State E))
      → After P m
      → ((s : State E) → P s → After Q (f s))
      → After Q (m >>= f)
  bind-After P Q (running s) f h k = k s h
  bind-After P Q (ended ss) f h k = tt
  bind-After P Q panicked f h k = tt

  arm-Ticks : (s : State E) → Ticks E (arm E s)
  arm-Ticks s = rw (arm_lem E s) (record { armed_for_work = λ h. ground arith })

  fan_out-Settled :
      (changed : Option RenderUpdate) (s : State E)
      → s.dirty ≡ false
      → Settled E (fan_out E changed s)
  fan_out-Settled changed s clean =
      let ss = map (flush_one changed (sync_update s.shadow s.cursor)) s.subs in
      rw (fan_out_lem E changed s) (record {
        ticks = record { armed_for_work = λ h. ground (arith, lagged-not-nil ss) };
        settled = clean;
      })

  fold_damage-Settled :
      (s : State E) (screen : Grid) (damage : List CellPatch)
      → Settled E (fold_damage E s screen damage)
  unfolding fold_damage
  fold_damage-Settled s screen damage =
      if_cases (Settled E) (not (is_nil damage) || not (cursor_eq (E.cursor s.term) s.cursor)) _ _
        (λ changed.
          fan_out-Settled (some (damage_update E damage (E.cursor s.term))) (changed_to E s screen)
            refl)
        (λ same. fan_out-Settled none (record s { dirty = false; scratch = screen }) refl)

  folded-Settled :
      (s : State E) (screen : Grid) (d : Option (List CellPatch))
      → After (Settled E) (folded E s screen d)
  folded-Settled s screen none = tt
  folded-Settled s screen (some damage) = fold_damage-Settled s screen damage

  -- A flush settles all work or arms the timer, also where it came from the timer itself.
  flush-Settled : (s : State E) → After (Settled E) (flush E s)
  unfolding flush
  flush-Settled s =
      if_cases (After (Settled E)) s.dirty _ _
        (λ dirty.
          folded-Settled s (E.snapshot s.term s.scratch)
            (diff s.shadow (E.snapshot s.term s.scratch)))
        (λ clean. fan_out-Settled none s clean)

  write_batch-Ticks : (s : State E) → Ticks E s → Ticks E (write_batch E s)
  unfolding write_batch
  write_batch-Ticks s v =
      if_cases (Ticks E) (is_nil s.batch) s _ (λ idle. v)
        (λ busy. arm-Ticks (record s { term = E.write s.batch s.term; batch = []; dirty = true }))

  subscribed-Ticks :
      (f : State E) (new_sub : Subscriber)
      → new_sub.lagged ≡ false
      → Settled E f
      → Ticks E (record f { subs = f.subs ++ new_sub ∷ [] })
  unfolding any_lagged
  subscribed-Ticks f new_sub n v = record {
    armed_for_work = λ h.
        v.ticks.armed_for_work (
          ground
            (arith, v.settled, any_lagged-append f.subs (new_sub ∷ []), lagged-not-nil f.subs));
  }

  control-Ticks : (op : Op) (s : State E) → Ticks E s → After (Ticks E) (control E op s)
  unfolding control
  control-Ticks (output bytes) s v = v
  control-Ticks (resize_to w h) s v =
      if_cases (After (Ticks E)) (eqb_ℤ (E.size s.term).w w && eqb_ℤ (E.size s.term).h h) _ _
        (λ same. v)
        (λ other. arm-Ticks (record s {
          term = E.resize w h s.term;
          shadow = new w h;
          scratch = new w h;
          subs = map (deliver (resize_update w h)) s.subs;
          dirty = true;
        }))
  control-Ticks (subscribe k) s v =
      bind-After (Settled E) (Ticks E) (flush E s) _ (flush-Settled s)
        (λ f fv. subscribed-Ticks f _ refl fv)
  control-Ticks (unsubscribe k) s v = record {
    armed_for_work =
        λ h. v.armed_for_work (ground (arith, any_lagged-remove k s.subs, is_nil-remove k s.subs));
  }
  control-Ticks (close left) s v = tt

  run_burst-Ticks : (ops : List Op) (s : State E) → Ticks E s → After (Ticks E) (run_burst E ops s)
  unfolding run_burst
  run_burst-Ticks [] s v = write_batch-Ticks s v
  run_burst-Ticks (output bytes ∷ ops) s v =
      run_burst-Ticks ops (record s { batch = s.batch ++ bytes })
        (record { armed_for_work = v.armed_for_work })
  run_burst-Ticks (op ∷ ops) s v =
      bind-After (Ticks E) (Ticks E) (control E op (write_batch E s)) (run_burst E ops)
        (control-Ticks op (write_batch E s) (write_batch-Ticks s v)) (run_burst-Ticks ops)

  Settled-After : (m : Outcome (State E)) → After (Settled E) m → After (Ticks E) m
  Settled-After (running s) h = h.ticks
  Settled-After (ended ss) h = tt
  Settled-After panicked h = tt

  step-Ticks : (e : Event E) (s : State E) → Ticks E s → After (Ticks E) (step E e s)
  unfolding step
  step-Ticks (burst ops) s v = run_burst-Ticks ops s v
  step-Ticks timer s v =
      if_cases (After (Ticks E)) s.armed _ _
        (λ on. Settled-After _ (flush-Settled (record s { armed = false }))) (λ off. v)
  step-Ticks (reads k) s v = record {
    armed_for_work = λ h.
        v.armed_for_work (ground (arith, any_lagged-read_by k s.subs, is_nil-read_by k s.subs));
  }

  run-Ticks : (es : List (Event E)) (s : State E) → Ticks E s → After (Ticks E) (run E es s)
  unfolding run
  run-Ticks [] s v = v
  run-Ticks (e ∷ es) s v =
      bind-After (Ticks E) (Ticks E) (step E e s) (run E es) (step-Ticks e s v) (run-Ticks es)

  -- After any events, if a pipeline goes on with a subscriber, and with output that is not flushed
  -- or a subscriber that lags, then its timer is armed: no update waits for the pane's next output.
  pub run-initial-Ticks :
      (w h : ℤ) (es : List (Event E)) → After (Ticks E) (run E es (initial E w h))
  unfolding initial any_lagged
  run-initial-Ticks w h es =
      run-Ticks es (initial E w h) (record { armed_for_work = λ h. absurd (false≢true h) })

-- With room in its channel a round of `flush` leaves no subscriber lagging.
flush_one-keeps :
    (changed : Option RenderUpdate) (sync : RenderUpdate) (s : Subscriber)
    → length s.queue < subscriber_buffer
    → (flush_one changed sync s).lagged ≡ false
unfolding flush_one catch_up deliver
flush_one-keeps none sync s h = ground arith
flush_one-keeps (some u) sync s h = ground arith

flush_keeps :
    (changed : Option RenderUpdate) (sync : RenderUpdate) (ss : List Subscriber)
    → All (λ s. length s.queue < subscriber_buffer) ss
    → any_lagged (map (flush_one changed sync) ss) ≡ false
unfolding any_lagged
flush_keeps changed sync [] h = refl
flush_keeps changed sync (s ∷ ss) h =
    rw (flush_one-keeps changed sync s h.0) (flush_keeps changed sync ss h.1)
