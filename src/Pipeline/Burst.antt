-- ===== src/Pipeline/Burst.antt =====
-- Every wakeup of the pipeline keeps its invariant, and none panics.
use mathlib.Core.Path.{ap₂}
use shevet.Prelude.{
  ◌≡◌, sym, ap, ◌∙◌, true, false, ◌&&◌, List, [], ◌∷◌, ◌++◌, map, if_cases, All, All-append,
  All-mono, ℤ, eqb_ℤ, clip, Bytes,
}
use mathlib.Core.Bool.{false≢true}
use shevet.Grid.{new}
use shevet.Grid.Bounds.{new-IsGrid}
use shevet.Emu.{Emulator, EmulatorLaws, IsPositive}
use shevet.Pipeline.{
  Op, output, resize_to, subscribe, unsubscribe, close, Outcome, running, ended, panicked, ◌>>=◌,
  State, initial, arm, flush, write_batch, control, run_burst, Event, burst, timer, reads, step,
  run,
}
use shevet.Pipeline.Subscribers.{Subscriber, deliver, resize_update, is_nil}
use shevet.Pipeline.Views.{view_of, view_after}
use shevet.Pipeline.Mirror.{Follows, resize-Follows, remove-Follows, read_by-Follows, fresh-Follows}
use shevet.Pipeline.Inv.{Inv, arm_lem, flush-Flushed}

-- The sizes that the watcher asks a pipeline for are those of real panes.
abbrev pub OpFits : Op → Type 0
OpFits (resize_to w h) = IsPositive w × IsPositive h
OpFits _ = Unit {0}

abbrev pub EventFits : {E : Emulator} → Event E → Type 0
EventFits (burst ops) = All OpFits ops
EventFits _ = Unit {0}

-- The loop goes on in a state with the invariant, or has ended; it has not panicked.
abbrev pub IsSound : (E : Emulator) → Outcome (State E) → Type 0
IsSound E (running s) = Inv E s
IsSound E (ended ss) = Unit {0}
IsSound E panicked = ⊥

module _ (E : Emulator) where
  bind-IsSound :
      (m : Outcome (State E)) (f : State E → Outcome (State E))
      → IsSound E m
      → ((s : State E) → Inv E s → IsSound E (f s))
      → IsSound E (m >>= f)
  bind-IsSound (running s) f h k = k s h
  bind-IsSound (ended ss) f h k = tt
  bind-IsSound panicked f h k = h

  arm-Inv : (s : State E) → Inv E s → Inv E (arm E s)
  arm-Inv s v = rw (arm_lem E s) (record {
    shadow_grid = v.shadow_grid;
    scratch_grid = v.scratch_grid;
    shadow_w = v.shadow_w;
    shadow_h = v.shadow_h;
    follow = v.follow;
    clean = v.clean;
  })

  module _ (laws : EmulatorLaws E) where
    pub initial-Inv : (w h : ℤ) → IsPositive w → IsPositive h → Inv E (initial E w h)
    unfolding initial
    initial-Inv w h pw ph =
        let blank = new-IsGrid w h in
        record {
          shadow_grid = blank;
          scratch_grid = blank;
          shadow_w = unfold new in ap (λ z. clip z.w) (sym (laws.size_start w h pw ph));
          shadow_h = unfold new in ap (λ z. clip z.h) (sym (laws.size_start w h pw ph));
          follow = tt;
          clean = λ _. (laws.start_blank w h (new w h) pw ph blank, laws.start_home w h pw ph);
        }

    written-Inv :
        (s : State E) (bytes : Bytes)
        → Inv E s
        → Inv E (record s { term = E.write bytes s.term; batch = []; dirty = true })
    written-Inv s bytes v = record {
      shadow_grid = v.shadow_grid;
      scratch_grid = v.scratch_grid;
      shadow_w = v.shadow_w ∙ ap (λ z. clip z.w) (sym (laws.size_write bytes s.term));
      shadow_h = v.shadow_h ∙ ap (λ z. clip z.h) (sym (laws.size_write bytes s.term));
      follow = v.follow;
      clean = λ e. absurd (false≢true (sym e));
    }

    pub write_batch-Inv : (s : State E) → Inv E s → Inv E (write_batch E s)
    unfolding write_batch
    write_batch-Inv s v =
        if_cases (Inv E) (is_nil s.batch) s _ (λ idle. v)
          (λ busy. arm-Inv _ (written-Inv s s.batch v))

    resized-Inv :
        (s : State E) (w h : ℤ)
        → IsPositive w
        → IsPositive h
        → Inv E s
        → Inv E (record s {
          term = E.resize w h s.term;
          shadow = new w h;
          scratch = new w h;
          subs = map (deliver (resize_update w h)) s.subs;
          dirty = true;
        })
    unfolding new
    resized-Inv s w h pw ph v = record {
      shadow_grid = new-IsGrid w h;
      scratch_grid = new-IsGrid w h;
      shadow_w = ap (λ z. clip z.w) (sym (laws.size_resize w h s.term pw ph));
      shadow_h = ap (λ z. clip z.h) (sym (laws.size_resize w h s.term pw ph));
      follow = resize-Follows s.shadow s.cursor w h s.subs v.follow;
      clean = λ e. absurd (false≢true (sym e));
    }

    with_subs-Inv :
        (s : State E) (ss : List Subscriber)
        → All (Follows s.shadow s.cursor) ss
        → Inv E s
        → Inv E (record s { subs = ss })
    with_subs-Inv s ss h v = record {
      shadow_grid = v.shadow_grid;
      scratch_grid = v.scratch_grid;
      shadow_w = v.shadow_w;
      shadow_h = v.shadow_h;
      follow = h;
      clean = v.clean;
    }

    flush-IsSound : (s : State E) → Inv E s → IsSound E (flush E s)
    flush-IsSound s v = let (f, e, flushed) = flush-Flushed E laws s v in rw e flushed.inv

    control-IsSound : (op : Op) (s : State E) → OpFits op → Inv E s → IsSound E (control E op s)
    unfolding control
    control-IsSound (output bytes) s h v = v
    control-IsSound (resize_to w h) s (pw, ph) v =
        if_cases (IsSound E) (eqb_ℤ (E.size s.term).w w && eqb_ℤ (E.size s.term).h h) _ _
          (λ same. v) (λ other. arm-Inv _ (resized-Inv s w h pw ph v))
    control-IsSound (subscribe k) s h v = bind-IsSound (flush E s) _ (flush-IsSound s v) λ f fv.
        with_subs-Inv f _
          (All-append (Follows f.shadow f.cursor) f.subs _ fv.follow
            (fresh-Follows f.shadow f.cursor k fv.shadow_grid, tt))
          fv
    control-IsSound (unsubscribe k) s h v =
        with_subs-Inv s _ (remove-Follows s.shadow s.cursor k s.subs v.follow) v
    control-IsSound (close left) s h v = tt

    with_batch-Inv : (s : State E) (bytes : Bytes) → Inv E s → Inv E (record s { batch = bytes })
    with_batch-Inv s bytes v = record {
      shadow_grid = v.shadow_grid;
      scratch_grid = v.scratch_grid;
      shadow_w = v.shadow_w;
      shadow_h = v.shadow_h;
      follow = v.follow;
      clean = v.clean;
    }

    run_burst-IsSound :
        (ops : List Op) (s : State E) → All OpFits ops → Inv E s → IsSound E (run_burst E ops s)
    unfolding run_burst
    run_burst-IsSound [] s h v = write_batch-Inv s v
    run_burst-IsSound (output bytes ∷ ops) s h v =
        run_burst-IsSound ops (record s { batch = s.batch ++ bytes }) h.1 (with_batch-Inv s _ v)
    run_burst-IsSound (op ∷ ops) s h v =
        bind-IsSound (control E op (write_batch E s)) (run_burst E ops)
          (control-IsSound op (write_batch E s) h.0 (write_batch-Inv s v))
          (λ next nv. run_burst-IsSound ops next h.1 nv)

    disarmed-Inv : (s : State E) → Inv E s → Inv E (record s { armed = false })
    disarmed-Inv s v = record {
      shadow_grid = v.shadow_grid;
      scratch_grid = v.scratch_grid;
      shadow_w = v.shadow_w;
      shadow_h = v.shadow_h;
      follow = v.follow;
      clean = v.clean;
    }

    pub step-IsSound : (e : Event E) (s : State E) → EventFits e → Inv E s → IsSound E (step E e s)
    unfolding step
    step-IsSound (burst ops) s h v = run_burst-IsSound ops s h v
    step-IsSound timer s h v =
        if_cases (IsSound E) s.armed _ _
          (λ on. flush-IsSound (record s { armed = false }) (disarmed-Inv s v)) (λ off. v)
    step-IsSound (reads k) s h v =
        with_subs-Inv s _ (read_by-Follows s.shadow s.cursor k s.subs v.follow) v

    run-IsSound :
        (es : List (Event E)) (s : State E) → All EventFits es → Inv E s → IsSound E (run E es s)
    unfolding run
    run-IsSound [] s h v = v
    run-IsSound (e ∷ es) s h v =
        bind-IsSound (step E e s) (run E es) (step-IsSound e s h.0 v)
          (λ next nv. run-IsSound es next h.1 nv)

    -- Whatever events wake a pipeline that starts with a column and a row at least, and is resized to
    -- no less, it never panics, and in every state that it goes on from the invariant holds: each
    -- subscriber that does not lag has received, or has in its channel, exactly the last flushed
    -- screen and cursor; no channel holds more than its buffer; and a state that is not dirty has
    -- flushed the terminal's screen.
    pub run-initial-IsSound :
        (w h : ℤ) (es : List (Event E))
        → IsPositive w
        → IsPositive h
        → All EventFits es
        → IsSound E (run E es (initial E w h))
    run-initial-IsSound w h es pw ph fits =
        run-IsSound es (initial E w h) fits (initial-Inv w h pw ph)

    -- A flush succeeds, and then every subscriber that does not lag has received, or has in its
    -- channel, exactly the screen and the cursor that the terminal has.
    pub flush_shows_screen :
        (s : State E)
        → Inv E s
        → (f : State E) × (flush E s ≡ running f)
          × (f.term ≡ s.term)
          × All
              (λ sub.
                sub.lagged ≡ false
                → view_after sub ≡ view_of (E.snapshot s.term f.scratch) (E.cursor s.term))
              f.subs
    flush_shows_screen s v =
        let (f, e, flushed) = flush-Flushed E laws s v in
        let (screen, cur) = flushed.inv.clean flushed.done in
        let shows : view_of f.shadow f.cursor
            ≡ view_of (E.snapshot s.term f.scratch) (E.cursor s.term) =
          ap₂ view_of (sym screen ∙ ap (λ t. E.snapshot t f.scratch) flushed.same_term)
            (sym cur ∙ ap E.cursor flushed.same_term) in
        (
          f,
          e,
          flushed.same_term,
          All-mono (Follows f.shadow f.cursor) _ f.subs (λ sub fol n. fol.mirror n ∙ shows)
              flushed.inv.follow,
        )
