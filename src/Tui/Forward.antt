-- ===== src/Tui/Forward.antt =====
-- internal/tui/model.go: `forwardInputCmd`, which drains a Host's queue onto its input stream. Its
-- select is a sequence of turns: the context is done, or a request is taken, and then the context is
-- asked again.
pub mod Typing
use shevet.Prelude.{Bool, Option, none, some, List, [], ◌∷◌, if◌then◌else◌, Bytes}
use shevet.Client.Input
use shevet.Tui.Focus.{InputReq, send_keys, send_resize, send_restore}

pub data Turn : Type 0 where
  done : Turn
  taken : (req : InputReq) → (cancelled : Bool) → Turn

module _ {W : Type 0} (send : Input.Sender W) where
  -- The switch on a request.
  unfoldable pub forward_one : InputReq → W → Option Bytes × W
  unfolding Input.send_keys Input.send_resize Input.send_restore
  forward_one (send_restore pane) w = Input.send_restore send pane w
  forward_one (send_resize pane size) w = Input.send_resize send pane size.w size.h w
  forward_one (send_keys pane keys) w = Input.send_keys send pane keys w

  -- The loop; an error is the text of the `inputFailedMsg`, and `none` is that nothing is reported.
  unfoldable pub after_one : Option Bytes × W → (W → Option Bytes × W) → Option Bytes × W
  after_one (some e, w) next = (some e, w)
  after_one (none, w) next = next w

  unfoldable pub forward : List Turn → W → Option Bytes × W
  unfolding forward_one after_one
  forward [] w = (none, w)
  forward (done ∷ turns) w = (none, w)
  forward (taken req cancelled ∷ turns) w =
      if cancelled then (none, w) else after_one (forward_one req w) (forward turns)

  -- `forwardInputCmd`, from the answer to `SendInput`: the stream is there, or it could not open.
  unfoldable pub forward_input_cmd : Option Bytes → List Turn → W → Option Bytes × W
  unfolding forward
  forward_input_cmd (some e) turns w = (some e, w)
  forward_input_cmd none turns w = forward turns w
