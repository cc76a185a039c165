-- ===== src/Client/Input.antt =====
-- internal/client/client.go: the Client's half of the Control Input stream. The stream of gRPC is a
-- state-passing function of a message: `W` is whatever it keeps, and the result an error or none.
use shevet.Prelude.{
  not, ◌||◌, Option, none, some, [], ◌∷◌, ◌++◌, if◌then◌else◌, ℤ, pos, ltb_ℤ, Bytes, codes,
}
use shevet.Prelude.Decimal.{itoa}
use shevet.Wire.{uint32}
use shevet.Inject.{wrap_error}
use shevet.Server.Service.{InputEvent, key_bytes, resize_request, restore_request}

abbrev pub Sender : Type 0 → Type 0
Sender W = InputEvent → W → Option Bytes × W

module _ {W : Type 0} (send : Sender W) where
  -- `InputStream.SendKeys`
  unfoldable pub send_keys : Bytes → Bytes → W → Option Bytes × W
  unfolding wrap_error
  send_keys pane [] w = (none, w)
  send_keys pane (b ∷ keys) w =
      wrap_error (codes "send keys to pane " ++ pane) (send (key_bytes pane (b ∷ keys)) w)

  -- `InputStream.SendResize`
  unfoldable pub send_resize : Bytes → ℤ → ℤ → W → Option Bytes × W
  unfolding wrap_error itoa uint32
  send_resize pane width height w =
      if not (ltb_ℤ (pos 0) width) || not (ltb_ℤ (pos 0) height)
      then (
        some (
            codes "resize pane "
            ++ (pane
                ++ (codes ": implausible size " ++ (itoa width ++ (codes "x" ++ itoa height))))),
        w,
      )
      else wrap_error (codes "send resize of pane " ++ pane)
          (send (resize_request pane (uint32 width) (uint32 height)) w)

  -- `InputStream.SendRestore`
  unfoldable pub send_restore : Bytes → W → Option Bytes × W
  unfolding wrap_error
  send_restore pane w =
      wrap_error (codes "send restore of pane " ++ pane) (send (restore_request pane) w)
