-- ===== src/Inject/Runs.antt =====
-- The runs that `Keys` splits its input into, described without a loop over positions.
use mathlib.Core.Path.{fun_ext}
use shevet.Prelude.{
  ℕ, suc, zero, ◌≤◌, ◌≡◌, refl, ◌≢◌, inl, inr, Bool, true, false, Option, none, List, [], ◌∷◌, ◌++◌,
  arith, if◌then◌else◌, length, Bool-cases, Bytes, All,
}
use shevet.Inject.{
  Commander, is_control, in_class, take_run, send_literal, send_control, and_then, keys_loop, keys,
}

-- A run of one class.
pub record Run : Type 0 where
  pub control : Bool
  pub bytes : Bytes

-- A byte in front of a split: it joins the first run if it has that run's class.
unfoldable pub push : ℕ → List Run → List Run
unfolding in_class is_control
push b [] = record { control = is_control b; bytes = b ∷ [] } ∷ []
push b (r ∷ rs) =
    if in_class r.control b
    then record r { bytes = b ∷ r.bytes } ∷ rs
    else record { control = is_control b; bytes = b ∷ [] } ∷ r ∷ rs

unfoldable pub split : Bytes → List Run
unfolding push
split [] = []
split (b ∷ s) = push b (split s)

pub in_class_self : (b : ℕ) → in_class (is_control b) b ≡ true
unfolding in_class
in_class_self b = ground arith

in_class_other : (k : Bool) (b : ℕ) → in_class k b ≡ false → in_class (is_control b) b ≡ true
in_class_other k b h = in_class_self b

in_class→≡ : (k : Bool) (b : ℕ) → in_class k b ≡ true → is_control b ≡ k
unfolding in_class
in_class→≡ k b h = ground arith

class_ne : (b c : ℕ) → in_class (is_control b) c ≡ false → in_class (is_control c) b ≡ false
unfolding in_class
class_ne b c h = ground arith

pub push_same :
    (b : ℕ) (run : Bytes) (rs : List Run)
    → push b (record { control = is_control b; bytes = run } ∷ rs)
      ≡ record { control = is_control b; bytes = b ∷ run } ∷ rs
unfolding push
push_same b run rs = rw (in_class_self b)

-- The first run of a split is the one that the loop takes, and the others split what it leaves.
pub split-take_run :
    (b : ℕ) (s : Bytes)
    → push b (split s)
      ≡ record { control = is_control b; bytes = b ∷ (take_run (is_control b) s).0 }
        ∷ split (take_run (is_control b) s).1
unfolding split take_run
split-take_run b [] = unfold push in refl
split-take_run b (c ∷ s) = elim (Bool-cases (in_class (is_control b) c)) [
  | inl same ↦
      rw (same, split-take_run c s, in_class→≡ (is_control b) c same)
        (push_same b (c ∷ (take_run (is_control b) s).0) (split (take_run (is_control b) s).1))
  | inr other ↦ rw (other, split-take_run c s) (unfold push in rw (class_ne b c other))
]

take_run-le : (k : Bool) (s : Bytes) → length (take_run k s).1 ≤ length s
unfolding take_run
take_run-le k [] = omega arith
take_run-le k (b ∷ s) = ground (arith, take_run-le k s)

-- The bytes of all runs in order.
abbrev pub spelled : List Run → Bytes
spelled [] = []
spelled (r ∷ rs) = r.bytes ++ spelled rs

spelled-push : (b : ℕ) (rs : List Run) → spelled (push b rs) ≡ b ∷ spelled rs
unfolding push
spelled-push b [] = refl
spelled-push b (r ∷ rs) = ground arith

pub spelled-split : (s : Bytes) → spelled (split s) ≡ s
unfolding split
spelled-split [] = refl
spelled-split (b ∷ s) = rw (spelled-push b (split s), spelled-split s)

-- Every byte of a run is of the run's class.
abbrev pub IsUniform : Run → Type 0
IsUniform r = (r.bytes ≢ []) × All (λ b. is_control b ≡ r.control) r.bytes

-- Neighbours differ in class, so that no run could be longer.
abbrev pub Alternates : List Run → Type 0
Alternates [] = Unit {0}
Alternates (r ∷ []) = Unit {0}
Alternates (r ∷ q ∷ rs) = (r.control ≢ q.control) × Alternates (q ∷ rs)

push-IsUniform : (b : ℕ) (rs : List Run) → All IsUniform rs → All IsUniform (push b rs)
unfolding push in_class
push-IsUniform b [] h = ground arith
push-IsUniform b (r ∷ rs) h = ground arith

pub split-IsUniform : (s : Bytes) → All IsUniform (split s)
unfolding split
split-IsUniform [] = tt
split-IsUniform (b ∷ s) = push-IsUniform b (split s) (split-IsUniform s)

push-Alternates : (b : ℕ) (rs : List Run) → Alternates rs → Alternates (push b rs)
unfolding push in_class
push-Alternates b [] h = tt
push-Alternates b (r ∷ []) h = ground arith
push-Alternates b (r ∷ q ∷ rs) h = ground arith

pub split-Alternates : (s : Bytes) → Alternates (split s)
unfolding split
split-Alternates [] = tt
split-Alternates (b ∷ s) = push-Alternates b (split s) (split-Alternates s)

module _ {W : Type 0} (command : Commander W) (pane : Bytes) where
  unfoldable pub send_run : Run → W → Option Bytes × W
  send_run r w =
      if r.control then send_control command pane r.bytes w else send_literal command pane r.bytes w

  -- Run after run, up to the first that fails.
  unfoldable pub send_all : List Run → W → Option Bytes × W
  send_all [] w = (none, w)
  send_all (r ∷ rs) w = and_then (send_run r w) (send_all rs)

  keys_loop-send_all :
      (fuel : ℕ) (s : Bytes) (w : W)
      → length s ≤ fuel
      → keys_loop command pane fuel s w ≡ send_all (split s) w
  unfolding keys_loop send_all send_run split
  keys_loop-send_all fuel [] w h = refl
  keys_loop-send_all zero (b ∷ s) w h = absurd (omega arith)
  keys_loop-send_all (suc fuel) (b ∷ s) w h =
      let rest = (take_run (is_control b) s).1 in
      rw (
        split-take_run b s,
        fun_ext λ w'. keys_loop-send_all fuel rest w' (omega (arith, take_run-le (is_control b) s)),
      )

-- What `Keys` does is to send the runs of the split in order, up to the first that fails.
pub keys-send_all :
    {W : Type 0} (command : Commander W) (pane s : Bytes) (w : W)
    → keys command pane s w ≡ send_all command pane (split s) w
unfolding keys
keys-send_all command pane s w = keys_loop-send_all command pane (length s) s w (omega arith)
