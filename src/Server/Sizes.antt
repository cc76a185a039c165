-- ===== src/Server/Sizes.antt =====
-- internal/server/service.go: panes that a stream resized get their sizes back.
use mathlib.Core.Path.{subst, ap₂}
use shevet.Prelude.{
  ◌≡◌, refl, ap, ◌∙◌, ◌≢◌, inl, inr, Bool, true, not, ◌&&◌, Option, none, some, List, [], ◌∷◌, ◌++◌,
  map, arith, if◌then◌else◌, Bool-cases, if_cases, All, ℤ, pos, ltb_ℤ, Bytes, codes, bytes_eq,
  bytes_eq_refl,
}
use shevet.Prelude.Decimal.{itoa, hex2}
use shevet.Prelude.Maps.{Entries, lookup, insert, delete, bytes_ne, bytes_cases}
use shevet.Inject.{
  Commander, wrap_error, and_then, send_literal, send_control, literal_args, control_args, keys,
  resize,
}
use shevet.Inject.Runs.{Run, split, send_run, send_all, keys-send_all}
use shevet.Server.Service.{max_resize_dim}
use shevet.Server.Hub.{WatchedPane, Hub}
use shevet.Grid.{Size}

abbrev pub resize_words : Bytes → ℤ → ℤ → List Bytes
resize_words id w h =
    codes "resize-window" ∷ codes "-t" ∷ id ∷ codes "-x" ∷ itoa w ∷ codes "-y" ∷ itoa h ∷ []

-- A size that tmux allows.
abbrev pub in_range : ℤ → ℤ → Bool
in_range w h =
    (ltb_ℤ (pos 0) w && ltb_ℤ (pos 0) h)
    && (not (ltb_ℤ (pos max_resize_dim) w) && not (ltb_ℤ (pos max_resize_dim) h))

-- What is relied on of tmux, by the size that it has for each pane, and of all else: a resize of a pane
-- that is there to a size that tmux allows sets its size and no other; typing, and what goes on
-- outside of the stream, set none; the hub has the panes that are there, whatever sizes it shows.
pub record TmuxLaws (W : Type 0) (command : Commander W) (hub : W → Hub) (outside : W → W)
    (size : Bytes → W → Option Size) : Type 0 where
  pub sets :
      (id : Bytes) (w h : ℤ) (t : W) (s : Size)
      → in_range w h ≡ true
      → size id t ≡ some s
      → size id (command (resize_words id w h) t).1 ≡ some (record { w = w; h = h })
  pub keeps :
      (id j : Bytes) (w h : ℤ) (t : W)
      → id ≢ j
      → size j (command (resize_words id w h) t).1 ≡ size j t
  pub types :
      (j : Bytes) (args : List Bytes) (t : W)
      → size j (command (codes "send-keys" ∷ args) t).1 ≡ size j t
  pub idle : (j : Bytes) (t : W) → size j (outside t) ≡ size j t
  pub there :
      (id : Bytes) (wp : WatchedPane) (t : W)
      → lookup id (hub t) ≡ some wp
      → (s : Size) × (size id t ≡ some s)
  pub misses : (id : Bytes) (t : W) → lookup id (hub t) ≡ none → size id t ≡ none

pub All-insert :
    (P : Bytes × Size → Type 0) (id : Bytes) (s : Size) (m : Entries Size)
    → P (id, s)
    → All P m
    → All P (insert id s m)
unfolding insert
All-insert P id s [] p h = (p, tt)
All-insert P id s ((j, v) ∷ m) p h = elim (bytes_cases j id) [
  | inl same ↦ rw (same, bytes_eq_refl id) (p, h.1)
  | inr other ↦ rw (bytes_ne j id other) (h.0, All-insert P id s m p h.1)
]

pub All-delete :
    (P : Bytes × Size → Type 0) (id : Bytes) (m : Entries Size) → All P m → All P (delete id m)
unfolding delete
All-delete P id [] h = tt
All-delete P id ((j, v) ∷ m) h = elim (Bool-cases (bytes_eq j id)) [
  | inl e ↦ rw e (All-delete P id m h.1)
  | inr e ↦ rw e (h.0, All-delete P id m h.1)
]

pub All-lookup :
    (P : Bytes × Size → Type 0) (id : Bytes) (s : Size) (m : Entries Size)
    → All P m
    → lookup id m ≡ some s
    → P (id, s)
unfolding lookup
All-lookup P id s [] h e = absurd (ground arith)
All-lookup P id s ((j, v) ∷ m) h e = elim (bytes_cases j id) [
  | inl same ↦ let one : v ≡ s = value same in subst P (ap₂ (λ a b. (a, b)) same one) h.0
  | inr other ↦ All-lookup P id s m h.1 (miss other)
]
  where
    found : some v ≡ some s → v ≡ s
    found f = ground arith

    value : j ≡ id → v ≡ s
    value same = found (
        subst (λ b. (if b then some v else lookup id m) ≡ some s)
          (subst (λ x. bytes_eq j x ≡ true) same (bytes_eq_refl j)) e)

    miss : j ≢ id → lookup id m ≡ some s
    miss other = ground (arith, bytes_ne j id other)

module _ {W : Type 0} (command : Commander W) (hub : W → Hub) (outside : W → W)
    (size : Bytes → W → Option Size) (laws : TmuxLaws W command hub outside size) where
  wrap_error-state :
      {X : Type 0} (what : Bytes) (r : Option Bytes × X) → (wrap_error what r).1 ≡ r.1
  unfolding wrap_error
  wrap_error-state what (none, x) = refl
  wrap_error-state what (some e, x) = refl

  send_run-size : (id j : Bytes) (r : Run) (t : W) → size j (send_run command id r t).1 ≡ size j t
  unfolding send_run send_control send_literal control_args literal_args
  send_run-size id j r t =
      if_cases (λ x. size j x.1 ≡ size j t) r.control (send_control command id r.bytes t)
        (send_literal command id r.bytes t)
        (λ _.
          ap (size j) (
            wrap_error-state (codes "inject control bytes into pane " ++ id)
              (command (control_args id r.bytes) t))
          ∙ laws.types j (codes "-t" ∷ id ∷ codes "-H" ∷ map hex2 r.bytes) t)
        (λ _.
          ap (size j) (
            wrap_error-state (codes "inject literal into pane " ++ id)
              (command (literal_args id r.bytes) t))
          ∙ laws.types j (codes "-t" ∷ id ∷ codes "-l" ∷ codes "--" ∷ r.bytes ∷ []) t)

  and_then-size :
      (j : Bytes) (t : W) (r : Option Bytes × W) (next : W → Option Bytes × W)
      → size j r.1 ≡ size j t
      → ((t' : W) → size j (next t').1 ≡ size j t')
      → size j (and_then r next).1 ≡ size j t
  unfolding and_then
  and_then-size j t (some e, t') next h k = h
  and_then-size j t (none, t') next h k = k t' ∙ h

  send_all-size :
      (id j : Bytes) (rs : List Run) (t : W) → size j (send_all command id rs t).1 ≡ size j t
  unfolding send_all
  send_all-size id j [] t = refl
  send_all-size id j (r ∷ rs) t =
      and_then-size j t (send_run command id r t) (send_all command id rs) (send_run-size id j r t)
        (λ t'. send_all-size id j rs t')

  pub keys-size : (id j data' : Bytes) (t : W) → size j (keys command id data' t).1 ≡ size j t
  keys-size id j data' t =
      ap (λ r. size j r.1) (keys-send_all command id data' t) ∙ send_all-size id j (split data') t

  abbrev resizing : Bytes → ℤ → ℤ → Bytes
  resizing id w h =
      codes "resize pane " ++ (id ++ (codes " to " ++ (itoa w ++ (codes "x" ++ itoa h))))

  pub resize-sets :
      (id : Bytes) (w h : ℤ) (t : W) (s : Size)
      → in_range w h ≡ true
      → size id t ≡ some s
      → size id (resize command id w h t).1 ≡ some (record { w = w; h = h })
  unfolding resize
  resize-sets id w h t s r e =
      ap (size id) (wrap_error-state (resizing id w h) (command (resize_words id w h) t))
      ∙ laws.sets id w h t s r e

  pub resize-keeps :
      (id j : Bytes) (w h : ℤ) (t : W) → id ≢ j → size j (resize command id w h t).1 ≡ size j t
  unfolding resize
  resize-keeps id j w h t n =
      ap (size j) (wrap_error-state (resizing id w h) (command (resize_words id w h) t))
      ∙ laws.keeps id j w h t n
