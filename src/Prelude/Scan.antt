-- ===== src/Prelude/Scan.antt =====
-- What the program uses of `bufio.Scanner` with its default lines.
use Prim.Native.Nat.{ℕ, ◌<◌}
use mathlib.Core.Path.{◌≡◌, refl, sym, ap, ◌∙◌}
use mathlib.Core.Logic.{◌≢◌}
use mathlib.Core.Option.{Option, none, some}
use mathlib.Core.List.{List, [], ◌∷◌, ◌++◌, append-nil, append_assoc, map}
use native.Mathlib.Omega.{arith}
use shevet.Prelude.Tests.{ltb, ◌==◌, if◌then◌else◌, lt→ltb}
use shevet.Prelude.Lists.{All, length}
use shevet.Prelude.Text.{Bytes, Lacks}

-- A line's last byte, if it is a carriage return, is dropped.
unfoldable pub drop_cr : Bytes → Bytes
drop_cr [] = []
drop_cr (c ∷ []) = if c == b'\r' then [] else c ∷ []
drop_cr (c ∷ d ∷ s) = c ∷ drop_cr (d ∷ s)

-- `bufio.MaxScanTokenSize`
abbrev pub max_token : ℕ
max_token = 65536

-- A token in front of those behind it; a line that does not fit the buffer, `none`, ends the scan.
unfoldable pub token : Bytes → List (Option Bytes) → List (Option Bytes)
unfolding drop_cr
token line later = if ltb (length line) max_token then some (drop_cr line) ∷ later else none ∷ []

-- The tokens of a scan; the first argument is the line being read. A last line may lack its newline.
unfoldable pub scan_from : Bytes → Bytes → List (Option Bytes)
unfolding token
scan_from [] [] = []
scan_from (c ∷ line) [] = token (c ∷ line) []
scan_from line (c ∷ s) =
    let next = scan_from [] s in
    let longer = scan_from (line ++ c ∷ []) s in if c == b'\n' then token line next else longer

unfoldable pub scan_lines : Bytes → List (Option Bytes)
unfolding scan_from
scan_lines = scan_from []

-- Lines that the scan gives back as they are: short, and with no line break of either kind.
pub record IsLine (line : Bytes) : Type 0 where
  pub no_newline : Lacks b'\n' line
  pub no_return : Lacks b'\r' line
  pub short : length line < max_token

unfoldable pub unlines : List Bytes → Bytes
unlines [] = []
unlines (l ∷ ls) = l ++ b'\n' ∷ unlines ls

drop_cr-Lacks : (s : Bytes) → Lacks b'\r' s → drop_cr s ≡ s
unfolding drop_cr
drop_cr-Lacks [] h = refl
drop_cr-Lacks (c ∷ []) h = ground arith
drop_cr-Lacks (c ∷ d ∷ s) h = ap (λ r. c ∷ r) (drop_cr-Lacks (d ∷ s) h.1)

scan_from-newline : (line s : Bytes) → scan_from line (b'\n' ∷ s) ≡ token line (scan_from [] s)
unfolding scan_from
scan_from-newline [] s = refl
scan_from-newline (c ∷ line) s = refl

scan_from-other :
    (line s : Bytes) (c : ℕ) → c ≢ b'\n' → scan_from line (c ∷ s) ≡ scan_from (line ++ c ∷ []) s
unfolding scan_from
scan_from-other [] s c n = ground arith
scan_from-other (d ∷ line) s c n = ground arith

scan_from-line :
    (line l s : Bytes)
    → Lacks b'\n' l
    → scan_from line (l ++ b'\n' ∷ s) ≡ token (line ++ l) (scan_from [] s)
scan_from-line line [] s h =
    scan_from-newline line s ∙ ap (λ r. token r (scan_from [] s)) (sym (append-nil line))
scan_from-line line (c ∷ l) s h =
    scan_from-other line (l ++ b'\n' ∷ s) c h.0
    ∙ (scan_from-line (line ++ c ∷ []) l s h.1
        ∙ ap (λ r. token r (scan_from [] s)) (append_assoc line (c ∷ []) l))

-- A scan of lines with their newlines gives the lines.
pub scan_lines-unlines : (ls : List Bytes) → All IsLine ls → scan_lines (unlines ls) ≡ map some ls
unfolding scan_lines unlines
scan_lines-unlines [] h = unfold scan_from in refl
scan_lines-unlines (l ∷ ls) (h, t) =
    scan_from-line [] l (unlines ls) h.no_newline
    ∙ (fits ∙ ap (λ r. some l ∷ r) (scan_lines-unlines ls t))
  where
    fits : token l (scan_from [] (unlines ls)) ≡ some l ∷ scan_from [] (unlines ls)
    fits =
        unfold token in
        rw (lt→ltb (length l) max_token h.short)
          (ap (λ r. some r ∷ scan_from [] (unlines ls)) (drop_cr-Lacks l h.no_return))
