-- ===== src/Tui/Card/Frame.antt =====
-- internal/tui/view.go: the frame of a card is as wide as the card, and its cursor is in the picture.
use mathlib.Core.Path.{subst}
use shevet.Prelude.{
  ℕ, suc, zero, ◌+◌, ◌-◌, ◌≤◌, ◌<◌, max, ◌≡◌, refl, sym, ◌∙◌, Bool, true, false, ◌&&◌, Option, none,
  some, [], ◌∷◌, ◌++◌, append-nil, append_assoc, arith, leb, if◌then◌else◌, leb→le, if_cases,
  length, ℤ, pos, ◌+ℤ◌, ◌-ℤ◌, Bytes, codes, cut,
}
use shevet.Tui.Focus.{PaneRef}
use shevet.Tui.Dashboard.{PaneState}
use shevet.Tui.Layout.{layout_cards, lay_out}
use shevet.Tui.Card.{
  Style, Ansi, dash, top_left, top_right, bottom_left, bottom_right, ellipsis, blank, repeat,
  ref_string, lifecycle_badge, crop, card_top, card_bottom, tail_of, lead_of, ref_style, badge_lost,
  badge_exited,
}

-- The characters outside ASCII of a frame.
pub data IsFrame : Bytes → Type 0 where
  line_char : IsFrame dash
  cut_char : IsFrame ellipsis
  corner_1 : IsFrame top_left
  corner_2 : IsFrame top_right
  corner_3 : IsFrame bottom_left
  corner_4 : IsFrame bottom_right

-- A text of printable ASCII and of characters of a frame, and how many they are.
pub data Columns : Bytes → ℕ → Type 0 where
  empty : Columns [] 0
  letter :
      {c : ℕ} {s : Bytes} {n : ℕ}
      → (leb 32 c && leb c 126) ≡ true
      → Columns s n
      → Columns (c ∷ s) (n + 1)
  framed : {f s : Bytes} {n : ℕ} → IsFrame f → Columns s n → Columns (f ++ s) (n + 1)

-- Such texts, each in a style of the cards, one behind the other.
pub data Segments (A : Ansi) : Bytes → ℕ → Type 0 where
  ended : Segments A [] 0
  styled :
      {s t : Bytes} {m n : ℕ} (style : Style)
      → Columns s m
      → Segments A t n
      → Segments A (A.render style s ++ t) (m + n)

-- What is relied on of the styling library, for texts of printable ASCII and frames only: each of
-- their characters takes a column, also in a style of the cards and behind other such texts, and a
-- text that is cut to a width is one that fits it.
pub record AnsiLaws (A : Ansi) : Type 0 where
  pub width_columns : (s : Bytes) (n : ℕ) → Columns s n → A.width s ≡ n
  pub width_segments : (s : Bytes) (n : ℕ) → Segments A s n → A.width s ≡ n
  pub truncate_fits :
      (s : Bytes) (n limit : ℕ)
      → Columns s n
      → (k : ℕ) × Columns (A.truncate s limit ellipsis) k × (k ≤ limit)

as_many : {s : Bytes} {m n : ℕ} → m ≡ n → Columns s m → Columns s n
as_many {s = s} e c = subst (λ k. Columns s k) e c

Columns-append : {s t : Bytes} {m n : ℕ} → Columns s m → Columns t n → Columns (s ++ t) (m + n)
Columns-append {n = n} empty d = as_many {m = n} {n = 0 + n} (omega arith) d
Columns-append {n = n} (letter {n = k} h c) d =
    as_many {m = k + n + 1} {n = k + 1 + n} (omega arith) (letter h (Columns-append c d))
Columns-append {t = t} {n = n} (framed {f = f} {s = s} {n = k} h c) d =
    subst (λ x. Columns x (k + 1 + n)) (sym (append_assoc f s t))
      (as_many {m = k + n + 1} {n = k + 1 + n} (omega arith) (framed h (Columns-append c d)))

one_char : (f : Bytes) → IsFrame f → Columns f 1
one_char f h = subst (λ x. Columns x 1) (append-nil f) (framed h empty)

Columns-repeat : (n : ℕ) → Columns (repeat dash n) n
unfolding repeat
Columns-repeat zero = empty
Columns-repeat (suc n) =
    as_many {m = n + 1} {n = suc n} (omega arith) (framed line_char (Columns-repeat n))

one_blank : Columns blank 1
one_blank = letter refl empty

abbrev HasBadge : Option (Bytes × Style) → Type 0
HasBadge none = Unit
HasBadge (some (text, style)) = (n : ℕ) × Columns text n

abbrev all_printable : Bytes → Bool
all_printable [] = true
all_printable (c ∷ s) = (leb 32 c && leb c 126) && all_printable s

pub printable-Columns : (s : Bytes) → all_printable s ≡ true → Columns s (length s)
printable-Columns [] h = empty
printable-Columns (c ∷ s) h =
    as_many {m = length s + 1} {n = suc (length s)} (omega arith)
      (letter (ground arith) (printable-Columns s (ground arith)))

badge_of :
    (err : Option Bytes) (exited : Bool)
    → HasBadge (elim err [
      | some e ↦ some (codes "stream lost", badge_lost)
      | none ↦ if exited then some (codes "exited", badge_exited) else none
    ])
badge_of (some e) exited = (11, printable-Columns (codes "stream lost") refl)
badge_of none true = (6, printable-Columns (codes "exited") refl)
badge_of none false = tt

badge-Columns : (st : Option PaneState) → HasBadge (lifecycle_badge st)
unfolding lifecycle_badge
badge-Columns none = tt
badge-Columns (some st) = badge_of st.err st.view.exited

module _ (A : Ansi) (L : AnsiLaws A) where
  one : {s : Bytes} {n : ℕ} (style : Style) → Columns s n → Segments A (A.render style s) n
  one {s = s} {n = n} style c =
      subst (λ x. Segments A x n) (append-nil (A.render style s))
        (subst (λ k. Segments A (A.render style s ++ []) k) {x = n + 0} {y = n} (omega arith)
          (styled style c ended))

  both : {s t : Bytes} {m n : ℕ} → Segments A s m → Segments A t n → Segments A (s ++ t) (m + n)
  both {t = t} {n = n} ended d = subst (λ k. Segments A t k) {x = n} {y = 0 + n} (omega arith) d
  both {t = t} {n = n} (styled {s = s} {t = u} {m = a} {n = b} style c e) d =
      subst (λ x. Segments A x (a + b + n)) (sym (append_assoc (A.render style s) u t))
        (subst (λ k. Segments A (A.render style s ++ (u ++ t)) k) {x = a + (b + n)} {y = a + b + n}
          (omega arith) (styled style c (both e d)))

  -- A decorated text takes three columns more.
  decorated :
      {text : Bytes} {n : ℕ} (line style : Style)
      → Columns text n
      → Segments A
          (A.render line (dash ++ blank) ++ (A.render style text ++ A.render line blank))
          (2 + (n + 1))
  decorated line style c =
      both (one line (Columns-append (one_char dash line_char) one_blank))
        (both (one style c) (one line one_blank))

  -- The top border of a card with an interior of at least three columns is two columns wider.
  pub width-card_top :
      (line name : Style) (label : Bytes) (n iw : ℕ)
      → Columns label n
      → 3 ≤ iw
      → A.width (card_top A line name label iw) ≡ iw + 2
  unfolding card_top
  width-card_top line name label n iw c h =
      let text = A.truncate label (iw - 4) ellipsis in
      let (k, cut, fits) = L.truncate_fits label n (iw - 4) c in
      let head = A.render line (dash ++ blank) ++ (A.render name text ++ A.render line blank) in
      let front = decorated line name cut in
      let measured = L.width_segments head (2 + (k + 1)) front in
      let fill = iw - A.width head in
      L.width_segments _ (1 + (2 + (k + 1) + (fill + 1))) (
        both (one line (one_char top_left corner_1)) (
          both front
            (one line (Columns-append (Columns-repeat fill) (one_char top_right corner_2)))))
      ∙ omega (arith, fits, measured)

  -- The segments of the reference, if it is there, and their width.
  tail-Segments :
      (line : Style) (ref : PaneRef) (n iw : ℕ)
      → Columns (ref_string ref) n
      → (w : ℕ) × Segments A (tail_of A line ref iw) w × (w ≤ iw)
  unfolding tail_of
  tail-Segments line ref n iw c =
      let label = A.truncate (ref_string ref) (iw - 4) ellipsis in
      let (k, cut, fits) = L.truncate_fits (ref_string ref) n (iw - 4) c in
      if_cases (λ t. (w : ℕ) × Segments A t w × (w ≤ iw)) (leb (A.width label + 4) iw)
        (A.render line blank ++ (A.render ref_style label ++ A.render line (blank ++ dash))) []
        (λ h. (
          1 + (k + 2),
          both (one line one_blank) (
              both (one ref_style cut)
                (one line (Columns-append one_blank (one_char dash line_char)))),
          omega (arith, leb→le _ _ h, L.width_columns label k cut),
        ))
        (λ h. (0, ended, omega arith))

  lead-Segments :
      (line : Style) (badge : Option (Bytes × Style)) (tail : Bytes) (v iw : ℕ)
      → HasBadge badge
      → A.width tail ≡ v
      → v ≤ iw
      → (w : ℕ) × Segments A (lead_of A line badge tail iw) w × (w + v ≤ iw)
  unfolding lead_of
  lead-Segments line none tail v iw b e h = (0, ended, omega arith)
  lead-Segments line (some (text, style)) tail v iw (n, c) e h =
      let candidate =
        A.render line (dash ++ blank) ++ (A.render style text ++ A.render line blank) in
      let whole = decorated line style c in
      if_cases (λ t. (w : ℕ) × Segments A t w × (w + v ≤ iw))
        (leb (A.width candidate + A.width tail + 1) iw) candidate []
        (λ h'. (
          2 + (n + 1),
          whole,
          omega (arith, leb→le _ _ h', L.width_segments candidate (2 + (n + 1)) whole),
        ))
        (λ h'. (0, ended, omega arith))

  -- The bottom border is two columns wider than the interior, whatever badge it has.
  pub width-card_bottom :
      (line : Style) (st : Option PaneState) (ref : PaneRef) (n iw : ℕ)
      → Columns (ref_string ref) n
      → A.width (card_bottom A line st ref iw) ≡ iw + 2
  unfolding card_bottom
  width-card_bottom line st ref n iw c =
      let tail = tail_of A line ref iw in
      let (v, tail_is, narrow) = tail-Segments line ref n iw c in
      let tail_wide = L.width_segments tail v tail_is in
      let lead = lead_of A line (lifecycle_badge st) tail iw in
      let (w, lead_is, fit) =
        lead-Segments line (lifecycle_badge st) tail v iw (badge-Columns st) tail_wide narrow in
      let lead_wide = L.width_segments lead w lead_is in
      let fill = iw - A.width lead - A.width tail in
      L.width_segments _ (1 + (w + (fill + (v + 1)))) (
        both (one line (one_char bottom_left corner_3)) (
          both lead_is (
            both (one line (Columns-repeat fill))
              (both tail_is (one line (one_char bottom_right corner_4))))))
      ∙ omega (arith, fit, lead_wide, tail_wide)

-- The rows that a card shows: the row of the cursor is among them, and they are rows of the Pane, if
-- it has as many.
pub crop-shows :
    (y gh ih : ℕ)
    → y < gh
    → 1 ≤ ih
    → (crop (pos y) gh ih ≤ y)
      × (y < crop (pos y) gh ih + ih)
      × (crop (pos y) gh ih + ih ≤ max gh ih)
unfolding crop ◌+ℤ◌ ◌-ℤ◌
crop-shows y gh ih h i = ground arith

layout-fits :
    (vw vh n : ℤ) → (8 ≤ (layout_cards vw vh n).card_w) × (5 ≤ (layout_cards vw vh n).card_h)
unfolding layout_cards lay_out
layout-fits vw vh n = (omega arith, omega arith)

-- In the layout of any viewport, both borders of a card whose title and reference are printable ASCII
-- measure its width, whatever badge it has; and if the cursor is on a row of the Pane, that row is
-- among those the card shows.
pub card-layout_cards :
    (A : Ansi) (L : AnsiLaws A) (vw vh n : ℤ) (line name : Style) (label : Bytes)
    (st : Option PaneState) (ref : PaneRef) (title_n ref_n y gh : ℕ)
    → Columns label title_n
    → Columns (ref_string ref) ref_n
    → y < gh
    → (A.width (card_top A line name label ((layout_cards vw vh n).card_w - 2))
        ≡ (layout_cards vw vh n).card_w)
      × (A.width (card_bottom A line st ref ((layout_cards vw vh n).card_w - 2))
          ≡ (layout_cards vw vh n).card_w)
      × (crop (pos y) gh ((layout_cards vw vh n).card_h - 2) ≤ y)
      × (y
          < crop (pos y) gh ((layout_cards vw vh n).card_h - 2)
            + ((layout_cards vw vh n).card_h - 2))
card-layout_cards A L vw vh n line name label st ref title_n ref_n y gh c d h =
    let (fw, fh) = layout-fits vw vh n in
    let iw = (layout_cards vw vh n).card_w - 2 in
    let ih = (layout_cards vw vh n).card_h - 2 in
    let (above, below, _) = crop-shows y gh ih h (omega arith) in
    (
      width-card_top A L line name label title_n iw c (omega arith) ∙ omega arith,
      width-card_bottom A L line st ref ref_n iw d ∙ omega arith,
      above,
      below,
    )
