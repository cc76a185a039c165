-- ===== src/Server/Origins.antt =====
-- internal/server/service.go: each handler of the stream keeps the way back to the first sizes.
use mathlib.Core.Path.{subst}
use shevet.Prelude.{
  ℕ, ◌≡◌, refl, sym, ◌∙◌, inl, inr, true, ◌&&◌, Option, none, some, ◌++◌, arith, Option-cases,
  if_cases, length, All, ℤ, pos, ltb_ℤ, Bytes, codes,
}
use shevet.Prelude.Maps.{Entries, lookup, insert, bytes_cases, lookup-insert_self, lookup-insert_ne}
use shevet.Inject.{Commander, keys, resize}
use shevet.Server.Hub.{WatchedPane, Hub}
use shevet.Server.Service.{Stream, has_entry, record_size, tally, inject_data, inject_keys}
use shevet.Server.Sizes.{in_range, TmuxLaws, All-insert, keys-size, resize-sets, resize-keeps}
use shevet.Grid.{Size}

pub no_size : {A : Type 0} (a : A) → none ≡ some a → ⊥
no_size a e = ground arith

module _ {W : Type 0} (command : Commander W) (hub : W → Hub) (outside : W → W)
    (size : Bytes → W → Option Size) (laws : TmuxLaws W command hub outside size) where
  -- What holds of a stream that began at `start`: each size that it saved is the pane's first, a
  -- pane without one has its first size, and no pane is gone.
  pub record Origins (start : W) (saved : Entries Size) (t : W) : Type 0 where
    pub recorded : All (λ e. size e.0 start ≡ some e.1) saved
    pub free : (id : Bytes) → lookup id saved ≡ none → size id t ≡ size id start
    pub there :
        (id : Bytes) (s : Size) → size id start ≡ some s → (s' : Size) × (size id t ≡ some s')

  abbrev pub Keeps : W → Stream W → Type 0
  Keeps start s = Origins start s.saved s.tmux

  pub tally-Keeps :
      (start : W) (what : Bytes) (n : ℕ) (r : Option Bytes × W) (s : Stream W)
      → Origins start s.saved r.1
      → Keeps start (tally what n r s).1
  unfolding tally
  tally-Keeps start what n (some e, t) s h = h
  tally-Keeps start what n (none, t) s h = h

  pub Origins-same :
      (start : W) (saved : Entries Size) (t t' : W)
      → ((j : Bytes) → size j t' ≡ size j t)
      → Origins start saved t
      → Origins start saved t'
  Origins-same start saved t t' same o = record {
    recorded = o.recorded;
    free = λ id e. same id ∙ o.free id e;
    there = λ id s e. let (s', f) = o.there id s e in (s', same id ∙ f);
  }

  pub inject_keys-Keeps :
      (start : W) (h : Hub) (id data' : Bytes) (s : Stream W)
      → Keeps start s
      → Keeps start (inject_keys (some command) h id data' s).1
  unfolding inject_keys inject_data
  inject_keys-Keeps start h id data' s k =
      let r = keys command id data' s.tmux in
      if_cases (λ x. Keeps start x.1) (has_entry (lookup id h))
        (tally (codes "inject into pane " ++ id) (length data') r s) (none, s)
        (λ _. tally-Keeps start (codes "inject into pane " ++ id) (length data') r s (
          Origins-same start s.saved s.tmux r.1
            (λ j. keys-size command hub outside size laws id j data' s.tmux) k))
        (λ _. k)

  -- A resize of a pane that is there leaves every pane there.
  pub there-resize :
      (start : W) (saved : Entries Size) (t : W) (id : Bytes) (w h : ℤ) (s : Size)
      → in_range w h ≡ true
      → size id t ≡ some s
      → Origins start saved t
      → (j : Bytes) (v : Size) → size j start ≡ some v
      → (v' : Size) × (size j (resize command id w h t).1 ≡ some v')
  there-resize start saved t id w h s r e o j v f = elim (bytes_cases id j) [
    | inl same ↦ (
      record { w = w; h = h },
      subst (λ x. size x (resize command id w h t).1 ≡ some (record { w = w; h = h })) same
          (resize-sets command hub outside size laws id w h t s r e),
    )
    | inr other ↦
        let (v', g) = o.there j v f in
        (v', resize-keeps command hub outside size laws id j w h t other ∙ g)
  ]

  abbrev pub Positive : W → Type 0
  Positive start = (id : Bytes) (s : Size) → size id start ≡ some s → in_range s.w s.h ≡ true

  -- A first resize records the size that it displaces; later ones do not.
  record_size-kept :
      (id : Bytes) (wp : WatchedPane) (saved : Entries Size) (s : Size)
      → lookup id saved ≡ some s
      → record_size id wp saved ≡ saved
  unfolding record_size
  record_size-kept id wp saved s e = rw e refl

  record_size-new :
      (id : Bytes) (wp : WatchedPane) (saved : Entries Size)
      → lookup id saved ≡ none
      → (ltb_ℤ (pos 0) wp.width && ltb_ℤ (pos 0) wp.height) ≡ true
      → record_size id wp saved ≡ insert id (record { w = wp.width; h = wp.height }) saved
  unfolding record_size
  record_size-new id wp saved e p = rw (e, p) refl

  pub resize-Origins :
      (start : W) (saved : Entries Size) (t : W) (id : Bytes) (w h : ℤ) (wp : WatchedPane)
      → in_range w h ≡ true
      → Positive start
      → lookup id (hub t) ≡ some wp
      → (lookup id saved ≡ none → size id t ≡ some (record { w = wp.width; h = wp.height }))
      → Origins start saved t
      → Origins start (record_size id wp saved) (resize command id w h t).1
  resize-Origins start saved t id w h wp r positive e shown o =
      elim (Option-cases (lookup id saved)) [
        | inl fresh ↦ rw (record_size-new id wp saved fresh (both_positive fresh)) (record {
          recorded =
              All-insert (λ e. size e.0 start ≡ some e.1) id now saved (origin fresh) o.recorded;
          free = λ j f. elim (bytes_cases id j) [
            | inl same ↦ absurd (
                no_size now (
                  sym f
                  ∙ subst (λ x. lookup x (insert id now saved) ≡ some now) same
                      (lookup-insert_self id now saved)))
            | inr other ↦
                resize-keeps command hub outside size laws id j w h t other
                ∙ o.free j (sym (lookup-insert_ne id j now saved other) ∙ f)
          ];
          there = there-resize start saved t id w h sized.0 r sized.1 o;
        })
        | inr (s, old) ↦ rw (record_size-kept id wp saved s old) (record {
          recorded = o.recorded;
          free = λ j f. elim (bytes_cases id j) [
            | inl same ↦ absurd (no_size s (sym f ∙ subst (λ x. lookup x saved ≡ some s) same old))
            | inr other ↦ resize-keeps command hub outside size laws id j w h t other ∙ o.free j f
          ];
          there = there-resize start saved t id w h sized.0 r sized.1 o;
        })
      ]
    where
      now : Size
      now = record { w = wp.width; h = wp.height }

      sized : (s : Size) × (size id t ≡ some s)
      sized = laws.there id wp t e

      origin : lookup id saved ≡ none → size id start ≡ some now
      origin fresh = sym (o.free id fresh) ∙ shown fresh

      both_positive :
          lookup id saved ≡ none → (ltb_ℤ (pos 0) wp.width && ltb_ℤ (pos 0) wp.height) ≡ true
      both_positive fresh = let p = positive id now (origin fresh) in ground arith
