-- ===== src/Tmuxctl/Version.antt =====
-- internal/tmuxctl/client.go: the check of tmux's version.

use mathlib.Core.Path.{subst, ap₂}
use shevet.Prelude.{
  ℕ, ◌≤◌, ◌<◌, ◌≡◌, refl, ap, ◌∙◌, ◌≢◌, ◌↔◌, ◌⊎◌, Bool, true, false, ◌&&◌, ◌||◌, Option, none, some,
  [], ◌∷◌, ◌++◌, arith, if◌then◌else◌, All, All-mono, ℤ, pos, ltb_ℤ, eqb_ℤ, Bytes, codes,
  strip_prefix, trim_prefix, cut_at, trim_space, strip_prefix-append, cut_at-join,
}
use shevet.Prelude.Decimal.{
  decimal, is_digit, max_int, atoi, IsDigit, decimal-IsDigit, decimal-cons, atoi-decimal,
}

unfoldable pub take_digits : Bytes → Bytes
take_digits [] = []
take_digits (c ∷ s) = let rest = take_digits s in if is_digit c then c ∷ rest else []

unfoldable pub with_minor : Option ℤ → Option ℤ → Option (ℤ × ℤ)
with_minor (some major) (some minor) = some (major, minor)
with_minor none minor = none
with_minor (some major) none = none

-- What stands before the first dot, and behind it; without either there is no version. `atoi` of
-- no digits is `none` as well.
unfoldable pub version_parts : Option (Bytes × Bytes) → Option (ℤ × ℤ)
unfolding with_minor take_digits atoi
version_parts none = none
version_parts (some (before, after)) = with_minor (atoi before) (atoi (take_digits after))

-- `parseVersion`
unfoldable pub parse_version : Bytes → Option (ℤ × ℤ)
unfolding version_parts cut_at strip_prefix
parse_version v = version_parts (cut_at (codes ".") (trim_prefix v (codes "next-")))

abbrev pub min_tmux_major : ℤ
min_tmux_major = pos 3

abbrev pub min_tmux_minor : ℤ
min_tmux_minor = pos 2

-- `belowFloor`
unfoldable pub below_floor : ℤ → ℤ → Bool
below_floor major minor =
    ltb_ℤ major min_tmux_major || (eqb_ℤ major min_tmux_major && ltb_ℤ minor min_tmux_minor)

abbrev too_old : Bytes → Bytes
too_old version =
    codes "tmuxctl: tmux "
    ++ (version
        ++ codes
            " is too old: Shevet needs tmux 3.2 or newer for control-mode flow control (pause-after); please upgrade tmux")

unfoldable pub verdict : Bytes → Option (ℤ × ℤ) → Option Bytes
unfolding below_floor
verdict version none = none
verdict version (some (major, minor)) =
    if below_floor major minor then some (too_old version) else none

-- `checkVersion`, on what `tmux -V` wrote.
unfoldable pub check_version : Bytes → Option Bytes
unfolding parse_version verdict trim_space strip_prefix
check_version out =
    let version = trim_space (trim_prefix (trim_space out) (codes "tmux ")) in
    verdict version (parse_version version)

-- A text that does not go on with a digit.
abbrev pub NoDigit : Bytes → Type 0
NoDigit [] = Unit {0}
NoDigit (c ∷ s) = is_digit c ≡ false

take_digits-append : (s t : Bytes) → All IsDigit s → NoDigit t → take_digits (s ++ t) ≡ s
unfolding take_digits
take_digits-append [] [] h k = refl
take_digits-append [] (c ∷ t) h k = rw k refl
take_digits-append (c ∷ s) t h k = ground (arith, take_digits-append s t)

strip_prefix-miss : (p c : ℕ) (ps s : Bytes) → c ≢ p → strip_prefix (p ∷ ps) (c ∷ s) ≡ none
unfolding strip_prefix
strip_prefix-miss p c ps s h = ground arith

strip_prefix-decimal : (n : ℕ) (t : Bytes) → strip_prefix (codes "next-") (decimal n ++ t) ≡ none
strip_prefix-decimal n t =
    let (c, s, e) = decimal-cons n in
    let d = (subst (All IsDigit) e (decimal-IsDigit n)).0 in
    ap (λ x. strip_prefix (codes "next-") (x ++ t)) e
    ∙ strip_prefix-miss 110 c (codes "ext-") (s ++ t) (letter c d)
  where
    letter : (c : ℕ) → IsDigit c → c ≢ 110
    letter c d = ground arith

parts-decimal :
    (major minor : ℕ) (suffix : Bytes)
    → major ≤ max_int
    → minor ≤ max_int
    → NoDigit suffix
    → version_parts (cut_at (codes ".") (decimal major ++ (46 ∷ (decimal minor ++ suffix))))
      ≡ some (pos major, pos minor)
unfolding version_parts with_minor
parts-decimal major minor suffix h k l =
    ap version_parts (
      cut_at-join 46 [] (decimal major) (decimal minor ++ suffix)
        (All-mono IsDigit (λ c. c ≢ 46) (decimal major) dot (decimal-IsDigit major)))
    ∙ (ap (λ d. with_minor (atoi (decimal major)) (atoi d))
          (take_digits-append (decimal minor) suffix (decimal-IsDigit minor) l)
        ∙ ap₂ with_minor (atoi-decimal major h) (atoi-decimal minor k))
  where
    dot : (c : ℕ) → IsDigit c → c ≢ 46
    dot c d = ground arith

below_floor-lt :
    (major minor : ℕ)
    → (below_floor (pos major) (pos minor) ≡ true) ↔ ((major < 3) ⊎ ((major ≡ 3) × (minor < 2)))
unfolding below_floor
below_floor-lt major minor = ground arith

-- A version of two decimal numbers, whatever follows that is no digit, and of a development build
-- or not, is read as these numbers, and is refused exactly when it is older than 3.2.
parse_version-decimal :
    (major minor : ℕ) (suffix : Bytes)
    → major ≤ max_int
    → minor ≤ max_int
    → NoDigit suffix
    → (parse_version (decimal major ++ (46 ∷ (decimal minor ++ suffix)))
        ≡ some (pos major, pos minor))
      × (parse_version (codes "next-" ++ (decimal major ++ (46 ∷ (decimal minor ++ suffix))))
          ≡ some (pos major, pos minor))
      × ((below_floor (pos major) (pos minor) ≡ true) ↔ ((major < 3) ⊎ ((major ≡ 3) × (minor < 2))))
unfolding parse_version
parse_version-decimal major minor suffix h k l =
    let text = decimal major ++ (46 ∷ (decimal minor ++ suffix)) in
    let parts = parts-decimal major minor suffix h k l in
    (
      ap (λ o. version_parts (cut_at (codes ".") (elim o [ none ↦ text | some r ↦ r ])))
            (strip_prefix-decimal major (46 ∷ (decimal minor ++ suffix)))
          ∙ parts,
      ap
            (λ o.
              version_parts
                (cut_at (codes ".") (elim o [ none ↦ codes "next-" ++ text | some r ↦ r ])))
            (strip_prefix-append (codes "next-") text)
          ∙ parts,
      below_floor-lt major minor,
    )
