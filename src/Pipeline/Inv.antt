-- ===== src/Pipeline/Inv.antt =====
-- The invariant of the pipeline, and that every wakeup keeps it.
use shevet.Prelude.{
  ◌≡◌, refl, sym, ap, ◌∙◌, inl, inr, Bool, true, false, not, ◌||◌, Option, none, some, List, [],
  ◌∷◌, map, arith, if◌then◌else◌, Bool-cases, if_true, if_false, All, clip,
}
use mathlib.Core.Bool.{false≢true}
use shevet.Grid.{Cursor, CellPatch, Grid, cursor_eq, apply_all}
use shevet.Grid.Bounds.{IsGrid}
use shevet.Grid.Patches.{apply_all-diff}
use shevet.Emu.{Emulator, EmulatorLaws}
use shevet.Pipeline.{running, State, arm, fan_out, fold_damage, folded, flush}
use shevet.Pipeline.Subscribers.{
  RenderUpdate, Subscriber, sync_update, flush_one, any_lagged, is_nil,
}
use shevet.Pipeline.Views.{shown-damage}
use shevet.Pipeline.Mirror.{Follows, flush_none-Follows, flush_some-Follows}

pub record Inv (E : Emulator) (s : State E) : Type 0 where
  pub shadow_grid : IsGrid s.shadow
  pub scratch_grid : IsGrid s.scratch
  pub shadow_w : s.shadow.w ≡ clip (E.size s.term).w
  pub shadow_h : s.shadow.h ≡ clip (E.size s.term).h
  pub follow : All (Follows s.shadow s.cursor) s.subs
  pub clean :
      s.dirty ≡ false → (E.snapshot s.term s.scratch ≡ s.shadow) × (E.cursor s.term ≡ s.cursor)

-- The timer that `arm` leaves.
abbrev pub armed_after : Bool → List Subscriber → Bool
armed_after a ss = a || not (is_nil ss)

cursor_eq→≡ : (a b : Cursor) → cursor_eq a b ≡ true → a ≡ b
unfolding cursor_eq
cursor_eq→≡ a b h = ground arith

no_damage : (g g' : Grid) (ps : List CellPatch) → is_nil ps ≡ true → apply_all g ps ≡ g' → g ≡ g'
unfolding apply_all
no_damage g g' [] h e = e
no_damage g g' (p ∷ ps) h e = absurd (false≢true h)

same_tests :
    (ps : List CellPatch) (a b : Cursor)
    → (not (is_nil ps) || not (cursor_eq a b)) ≡ false
    → (is_nil ps ≡ true) × (cursor_eq a b ≡ true)
same_tests ps a b h = ground arith

module _ (E : Emulator) where
  pub arm_lem : (s : State E) → arm E s ≡ record s { armed = armed_after s.armed s.subs }
  unfolding arm
  arm_lem s = ground arith

  pub fan_out_lem :
      (changed : Option RenderUpdate) (s : State E)
      → let next = map (flush_one changed (sync_update s.shadow s.cursor)) s.subs in
        fan_out E changed s ≡ record s {
          subs = next;
          armed = if any_lagged next then armed_after s.armed next else s.armed;
        }
  unfolding fan_out
  fan_out_lem changed s = ground arith

  fan_out-none-Inv : (s : State E) → Inv E s → Inv E (fan_out E none s)
  fan_out-none-Inv s v = rw (fan_out_lem none s) (record {
    shadow_grid = v.shadow_grid;
    scratch_grid = v.scratch_grid;
    shadow_w = v.shadow_w;
    shadow_h = v.shadow_h;
    follow = flush_none-Follows s.shadow s.cursor s.subs v.shadow_grid v.follow;
    clean = v.clean;
  })

  abbrev pub damage_update : List CellPatch → Cursor → RenderUpdate
  damage_update ps c = record { resized = none; damage = some ps; cursor = c }

  -- The state in which `fold_damage` fans a change out.
  abbrev pub changed_to : State E → Grid → State E
  changed_to s screen = record s {
    dirty = false;
    shadow = screen;
    scratch = s.shadow;
    cursor = E.cursor s.term;
  }

  module _ (laws : EmulatorLaws E) where
    changed-Inv :
        (s : State E) (damage : List CellPatch)
        → Inv E s
        → apply_all s.shadow damage ≡ E.snapshot s.term s.scratch
        → Inv E (
            fan_out E
              (some (damage_update damage (E.cursor s.term)))
              (changed_to s (E.snapshot s.term s.scratch)))
    changed-Inv s damage v e =
        let screen = E.snapshot s.term s.scratch in
        let cur = E.cursor s.term in
        rw (fan_out_lem (some (damage_update damage cur)) (changed_to s screen)) (record {
          shadow_grid = laws.snapshot_grid s.term s.scratch v.scratch_grid;
          scratch_grid = v.shadow_grid;
          shadow_w = laws.snapshot_w s.term s.scratch;
          shadow_h = laws.snapshot_h s.term s.scratch;
          follow =
              flush_some-Follows s.shadow screen s.cursor cur (damage_update damage cur) s.subs
                (laws.snapshot_grid s.term s.scratch v.scratch_grid)
                (shown-damage s.shadow screen s.cursor cur damage e) v.follow;
          clean =
              λ _. (laws.snapshot_any s.term s.shadow s.scratch v.shadow_grid v.scratch_grid, refl);
        })

    same-Inv :
        (s : State E)
        → Inv E s
        → s.shadow ≡ E.snapshot s.term s.scratch
        → E.cursor s.term ≡ s.cursor
        → Inv E (fan_out E none (record s { dirty = false; scratch = E.snapshot s.term s.scratch }))
    same-Inv s v e c =
        let screen = E.snapshot s.term s.scratch in
        let ok = laws.snapshot_grid s.term s.scratch v.scratch_grid in
        fan_out-none-Inv (record s { dirty = false; scratch = screen })
          (record {
            shadow_grid = v.shadow_grid;
            scratch_grid = ok;
            shadow_w = v.shadow_w;
            shadow_h = v.shadow_h;
            follow = v.follow;
            clean = λ _. (laws.snapshot_any s.term screen s.scratch ok v.scratch_grid ∙ sym e, c);
          })

    fold_damage-Inv :
        (s : State E) (damage : List CellPatch)
        → Inv E s
        → apply_all s.shadow damage ≡ E.snapshot s.term s.scratch
        → Inv E (fold_damage E s (E.snapshot s.term s.scratch) damage)
    unfolding fold_damage
    fold_damage-Inv s damage v e =
        elim (Bool-cases (not (is_nil damage) || not (cursor_eq (E.cursor s.term) s.cursor))) [
          | inl changed ↦ rw changed (changed-Inv s damage v e)
          | inr same ↦
              let cur = E.cursor s.term in
              let (none_changed, cursor_kept) = same_tests damage cur s.cursor same in
              rw same (
                same-Inv s v (no_damage s.shadow _ damage none_changed e)
                  (cursor_eq→≡ cur s.cursor cursor_kept))
        ]

    -- A flush leaves a state that is up to date, with the terminal and the batch as they were.
    pub record Flushed (s f : State E) : Type 0 where
      pub inv : Inv E f
      pub done : f.dirty ≡ false
      pub same_term : f.term ≡ s.term
      pub same_batch : f.batch ≡ s.batch

    fold_damage-fields :
        (s : State E) (screen : Grid) (damage : List CellPatch)
        → let f = fold_damage E s screen damage in
          (f.dirty ≡ false) × (f.term ≡ s.term) × (f.batch ≡ s.batch)
    unfolding fold_damage
    fold_damage-fields s screen damage =
        elim (Bool-cases (not (is_nil damage) || not (cursor_eq (E.cursor s.term) s.cursor))) [
          | inl changed ↦
              rw
                (
                  changed,
                  fan_out_lem (some (damage_update damage (E.cursor s.term))) (changed_to s screen),
                )
                (refl, refl, refl)
          | inr same ↦
              rw (same, fan_out_lem none (record s { dirty = false; scratch = screen }))
                (refl, refl, refl)
        ]

    pub flush-Flushed :
        (s : State E) → Inv E s → (f : State E) × (flush E s ≡ running f) × Flushed s f
    unfolding flush
    flush-Flushed s v = elim (Bool-cases s.dirty) [
      | inl dirty ↦
          let screen = E.snapshot s.term s.scratch in
          let (damage, found, turned) =
            apply_all-diff s.shadow screen v.shadow_grid
              (laws.snapshot_grid s.term s.scratch v.scratch_grid)
              (v.shadow_w ∙ sym (laws.snapshot_w s.term s.scratch))
              (v.shadow_h ∙ sym (laws.snapshot_h s.term s.scratch)) in
          let (done, same_term, same_batch) = fold_damage-fields s screen damage in
          (
            fold_damage E s screen damage,
            if_true s.dirty _ _ dirty ∙ ap (folded E s screen) found,
            record {
              inv = fold_damage-Inv s damage v turned;
              done = done;
              same_term = same_term;
              same_batch = same_batch;
            },
          )
      | inr clean ↦ (
        fan_out E none s,
        if_false s.dirty _ _ clean,
        record {
          inv = fan_out-none-Inv s v;
          done = rw (fan_out_lem none s) clean;
          same_term = rw (fan_out_lem none s);
          same_batch = rw (fan_out_lem none s);
        },
      )
    ]
