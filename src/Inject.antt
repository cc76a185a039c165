-- ===== src/Inject.antt =====
-- internal/inject/inject.go: input bytes become tmux send-keys commands. A tmux command is a
-- state-passing function of its words: `W` is whatever the other side keeps, and the result is an
-- error text or none.
pub mod Runs
pub mod Delivery
use shevet.Prelude.{
  ℕ, suc, zero, Bool, true, false, not, ◌||◌, Option, none, some, List, [], ◌∷◌, ◌++◌, map, ltb,
  ◌==◌, if◌then◌else◌, length, Bytes, codes,
}
use shevet.Prelude.Decimal.{itoa, hex2}
use shevet.Prelude.Int.{ℤ}

-- `Commander`: one tmux command, by its words.
abbrev pub Commander : Type 0 → Type 0
Commander W = List Bytes → W → Option Bytes × W

-- `isControl`
unfoldable pub is_control : ℕ → Bool
is_control b = ltb b 0x20 || b == 0x7f

unfoldable pub literal_args : Bytes → Bytes → List Bytes
literal_args pane run = codes "send-keys" ∷ codes "-t" ∷ pane ∷ codes "-l" ∷ codes "--" ∷ run ∷ []

unfoldable pub control_args : Bytes → Bytes → List Bytes
unfolding hex2
control_args pane run = (codes "send-keys" ∷ codes "-t" ∷ pane ∷ codes "-H" ∷ []) ++ map hex2 run

-- `fmt.Errorf("<what> pane %s: %w", pane, err)` on the error of a command, if it has one.
unfoldable pub wrap_error {ℓ} : {W : Type ℓ} → Bytes → Option Bytes × W → Option Bytes × W
wrap_error what (none, w) = (none, w)
wrap_error what (some e, w) = (some (what ++ (codes ": " ++ e)), w)

-- Whether a byte is of the class of a run: control, or text.
unfoldable pub in_class : Bool → ℕ → Bool
unfolding is_control
in_class true b = is_control b
in_class false b = not (is_control b)

-- The longest prefix of the one class, and what is left behind it: the inner loops of `Keys`.
unfoldable pub take_run : Bool → Bytes → Bytes × Bytes
take_run k [] = ([], [])
take_run k (b ∷ s) =
    let (run, rest) = take_run k s in if in_class k b then (b ∷ run, rest) else ([], b ∷ s)

-- A command that fails ends the loop; otherwise it goes on in the state that is left.
unfoldable pub and_then {ℓ} :
    {W : Type ℓ} → Option Bytes × W → (W → Option Bytes × W) → Option Bytes × W
and_then (some e, w) next = (some e, w)
and_then (none, w) next = next w

module _ {W : Type 0} (command : Commander W) (pane : Bytes) where
  unfoldable pub send_literal : Bytes → W → Option Bytes × W
  unfolding literal_args wrap_error
  send_literal run w =
      wrap_error (codes "inject literal into pane " ++ pane) (command (literal_args pane run) w)

  unfoldable pub send_control : Bytes → W → Option Bytes × W
  unfolding control_args wrap_error
  send_control run w =
      wrap_error (codes "inject control bytes into pane " ++ pane)
        (command (control_args pane run) w)

  -- The loop of `Keys` over the bytes that are left, with a round for each run.
  unfoldable pub keys_loop : ℕ → Bytes → W → Option Bytes × W
  unfolding send_literal send_control and_then
  keys_loop fuel [] w = (none, w)
  keys_loop zero (b ∷ s) w = (none, w)
  keys_loop (suc fuel) (b ∷ s) w =
      let (run, rest) = take_run (is_control b) s in
      let sent = if is_control b then send_control (b ∷ run) w else send_literal (b ∷ run) w in
      and_then sent (keys_loop fuel rest)

  -- `Keys`: every round takes a byte at least, so their number is fuel enough.
  unfoldable pub keys : Bytes → W → Option Bytes × W
  unfolding keys_loop
  keys bytes w = keys_loop (length bytes) bytes w

  -- `Resize`
  unfoldable pub resize : ℤ → ℤ → W → Option Bytes × W
  unfolding wrap_error itoa
  resize cols rows w =
      wrap_error
        (codes "resize pane "
          ++ (pane ++ (codes " to " ++ (itoa cols ++ (codes "x" ++ itoa rows)))))
        (command
          (codes "resize-window"
            ∷ codes "-t"
            ∷ pane
            ∷ codes "-x"
            ∷ itoa cols
            ∷ codes "-y"
            ∷ itoa rows
            ∷ [])
          w)
