-- ===== src/Examples/Inject.antt =====
-- internal/inject at concrete inputs.
use shevet.Prelude.{
  ◌<◌, ◌≡◌, refl, ◌≢◌, Option, none, List, [], ◌∷◌, ◌++◌, arith, length, pos, Bytes, codes,
}
use shevet.Inject.{keys, resize, is_control, take_run, in_class}
use shevet.Inject.Runs.{split}
use shevet.Inject.Delivery.{tmux, within, keys_stops_at_error}

-- Cursor up, and a word with a letter outside ASCII, and Enter.
abbrev typing : Bytes
typing = 0x1b ∷ b'[' ∷ b'A' ∷ 0xc3 ∷ 0xa9 ∷ 0x0d ∷ []

abbrev pane : Bytes
pane = codes "%3"

keys_stops_at_error_example :
    ((keys (tmux (codes "gone") pane) pane typing (record { received = []; left = 1 })).0 ≢ none)
    × ((keys (tmux (codes "gone") pane) pane typing (record { received = []; left = 1 })).1
        ≡ record { received = [] ++ within 1 typing; left = 0 })
keys_stops_at_error_example = keys_stops_at_error (codes "gone") pane typing [] 1 three
  where
    three : 1 < length (split typing)
    three = unfold split in omega arith

-- A commander that writes the words down.
abbrev record_words : List Bytes → List (List Bytes) → Option Bytes × List (List Bytes)
record_words args log = (none, log ++ args ∷ [])

sends_three_runs :
    (keys record_words pane typing []).1
    ≡ (codes "send-keys" ∷ codes "-t" ∷ pane ∷ codes "-H" ∷ codes "1b" ∷ [])
      ∷ (codes "send-keys"
          ∷ codes "-t"
          ∷ pane
          ∷ codes "-l"
          ∷ codes "--"
          ∷ (b'[' ∷ b'A' ∷ 0xc3 ∷ 0xa9 ∷ [])
          ∷ [])
      ∷ (codes "send-keys" ∷ codes "-t" ∷ pane ∷ codes "-H" ∷ codes "0d" ∷ [])
      ∷ []
unfolding keys take_run in_class is_control
sends_three_runs = refl

resizes : resize record_words pane (pos 120) (pos 40) [] ≡ (
  none,
  (codes "resize-window"
        ∷ codes "-t"
        ∷ pane
        ∷ codes "-x"
        ∷ codes "120"
        ∷ codes "-y"
        ∷ codes "40"
        ∷ [])
      ∷ [],
)
unfolding resize
resizes = refl
