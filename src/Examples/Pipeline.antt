-- ===== src/Examples/Pipeline.antt =====
-- internal/server/pipeline.go with a small emulator: its screen shows, in one cell, how many bytes
-- it has been given.
use shevet.Prelude.{
  ℕ, ◌+◌, ◌≡◌, refl, false, List, [], ◌∷◌, ◌++◌, arith, ◌==◌, if◌then◌else◌, if_cases, length,
  length-append, All, ℤ, pos, clip, Bytes, codes,
}
use shevet.Prelude.Decimal.{decimal}
use shevet.Grid.{Cursor, Grid, new, put}
use shevet.Grid.Bounds.{IsGrid, new-IsGrid, put-IsGrid}
use shevet.Emu.{Emulator, EmulatorLaws}
use shevet.Pipeline.{
  output, resize_to, subscribe, unsubscribe, running, State, initial, flush, Event, burst, timer,
  reads, run,
}
use shevet.Pipeline.Views.{view_of, view_after}
use shevet.Pipeline.Burst.{EventFits, IsSound, run-initial-IsSound, initial-Inv, flush_shows_screen}
use shevet.Pipeline.Timer.{After, Ticks, run-initial-Ticks}

record Counter : Type 0 where
  cols : ℤ
  rows : ℤ
  count : ℕ

counted : Counter → Grid
counted t =
    let blank = new t.cols t.rows in
    if t.count == 0
    then blank
    else put blank (pos 0) (pos 0)
        (record { content = decimal t.count; width = pos 1; fg = 0; bg = 0; attrs = 0 })

abbrev home : Cursor
home = record { x = pos 0; y = pos 0; hidden = false }

abbrev counter : Emulator
counter = record {
  Term = Counter;
  start = λ w h. record { cols = w; rows = h; count = 0 };
  write = λ bytes t. record t { count = t.count + length bytes };
  resize = λ w h t. record t { cols = w; rows = h };
  size = λ t. record { w = t.cols; h = t.rows };
  snapshot = λ t g. counted t;
  cursor = λ t. home;
}

counted-IsGrid : (t : Counter) → IsGrid (counted t)
unfolding counted
counted-IsGrid t =
    if_cases IsGrid (t.count == 0) _ _ (λ e. new-IsGrid t.cols t.rows)
      (λ e. put-IsGrid (new t.cols t.rows) (pos 0) (pos 0) _ (new-IsGrid t.cols t.rows))

counted-w : (t : Counter) → (counted t).w ≡ clip t.cols
unfolding counted put new
counted-w t = ground arith

counted-h : (t : Counter) → (counted t).h ≡ clip t.rows
unfolding counted put new
counted-h t = ground arith

counter_laws : EmulatorLaws counter
counter_laws = record {
  size_start = λ w h pw ph. refl;
  size_write = λ bytes t. refl;
  size_resize = λ w h t pw ph. refl;
  snapshot_grid = λ t g v. counted-IsGrid t;
  snapshot_w = λ t g. counted-w t;
  snapshot_h = λ t g. counted-h t;
  snapshot_any = λ t g k v u. refl;
  start_blank = λ w h g pw ph v. unfold counted in refl;
  start_home = λ w h pw ph. refl;
  write_append = λ a b t. λ i. record { cols = t.cols; rows = t.rows; count = adds a b t.count i };
}
  where
    adds : (a b : Bytes) (n : ℕ) → n + length (a ++ b) ≡ n + length a + length b
    adds a b n = omega (arith, length-append a b)

-- Two watchers, output, a resize, the timer, and reads.
abbrev session : List (Event counter)
session =
    burst (subscribe 1 ∷ output (codes "ls") ∷ [])
    ∷ timer
    ∷ reads 1
    ∷ burst (resize_to (pos 5) (pos 2) ∷ subscribe 2 ∷ output (codes "x") ∷ unsubscribe 1 ∷ [])
    ∷ timer
    ∷ []

session_fits : All (EventFits {E = counter}) session
session_fits = omega arith

run-initial-IsSound_example :
    IsSound counter (run counter session (initial counter (pos 3) (pos 2)))
run-initial-IsSound_example =
    run-initial-IsSound counter counter_laws (pos 3) (pos 2) session (omega arith) (omega arith)
      session_fits

run-initial-Ticks_example :
    After (Ticks counter) (run counter session (initial counter (pos 3) (pos 2)))
run-initial-Ticks_example = run-initial-Ticks counter (pos 3) (pos 2) session

abbrev begun : State counter
begun = initial counter (pos 3) (pos 2)

flush_shows_screen_example :
    (f : State counter) × (flush counter begun ≡ running f)
    × (f.term ≡ begun.term)
    × All
        (λ sub.
          sub.lagged ≡ false
          → view_after sub
            ≡ view_of (counter.snapshot begun.term f.scratch) (counter.cursor begun.term))
        f.subs
flush_shows_screen_example =
    flush_shows_screen counter counter_laws begun
      (initial-Inv counter counter_laws (pos 3) (pos 2) (omega arith) (omega arith))
