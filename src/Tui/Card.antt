-- ===== src/Tui/Card.antt =====
-- internal/tui/view.go: the frame of a card, the part of a Pane that it shows, and which cards are on
-- screen. The terminal styling library is a parameter: what a text measures, how it is cut and styled.
pub mod Frame
pub mod Tiles
use shevet.Prelude.{
  ℕ, suc, zero, ◌+◌, ◌-◌, Bool, not, Option, none, some, List, [], ◌∷◌, ◌++◌, ltb, leb, ◌==◌,
  if◌then◌else◌, ℤ, pos, ◌+ℤ◌, ◌-ℤ◌, clip, Bytes, codes, bytes_eq,
}
use shevet.Grid.{Grid}
use shevet.Tui.Focus.{PaneRef}
use shevet.Tui.Dashboard.{PaneState, RefPane, pane_ref}
use shevet.Tui.Layout.{clamp}
use shevet.Tui.Render.{render_region}

-- The styles of `theme.go` that the cards use.
pub data Style : Type 0 where
  border : Style
  border_sel : Style
  title : Style
  title_sel : Style
  ref_style : Style
  badge_lost : Style
  badge_exited : Style
  placeholder : Style

-- The styling library: `lipgloss.Width`, `ansi.Truncate`, `Style.Render`, and text placed in the middle
-- of a box or joined with other text.
pub record Ansi : Type 0 where
  pub width : Bytes → ℕ
  pub truncate : Bytes → ℕ → Bytes → Bytes
  pub render : Style → Bytes → Bytes
  pub place : ℕ → ℕ → Bytes → Bytes
  pub join_horizontal : List Bytes → Bytes
  pub join_vertical : List Bytes → Bytes

-- The characters of the frame, in UTF-8.
abbrev pub dash : Bytes
dash = 226 ∷ 148 ∷ 128 ∷ []

abbrev pub edge : Bytes
edge = 226 ∷ 148 ∷ 130 ∷ []

abbrev pub top_left : Bytes
top_left = 226 ∷ 149 ∷ 173 ∷ []

abbrev pub top_right : Bytes
top_right = 226 ∷ 149 ∷ 174 ∷ []

abbrev pub bottom_left : Bytes
bottom_left = 226 ∷ 149 ∷ 176 ∷ []

abbrev pub bottom_right : Bytes
bottom_right = 226 ∷ 149 ∷ 175 ∷ []

abbrev pub ellipsis : Bytes
ellipsis = 226 ∷ 128 ∷ 166 ∷ []

abbrev pub blank : Bytes
blank = 32 ∷ []

-- `strings.Repeat`
pub repeat : Bytes → ℕ → Bytes
repeat s zero = []
repeat s (suc n) = s ++ repeat s n

-- `PaneRef.String`
abbrev pub ref_string : PaneRef → Bytes
ref_string r = r.host ++ b':' ∷ r.id

-- `lifecycleBadge`
unfoldable pub lifecycle_badge : Option PaneState → Option (Bytes × Style)
lifecycle_badge none = none
lifecycle_badge (some st) = elim st.err [
  | some e ↦ some (codes "stream lost", badge_lost)
  | none ↦ if st.view.exited then some (codes "exited", badge_exited) else none
]

-- The first row of a Pane that a card shows, whose cursor is on row `y` and which has `gh` rows.
unfoldable pub crop : ℤ → ℕ → ℕ → ℕ
unfolding ◌+ℤ◌ ◌-ℤ◌
crop y gh ih = clamp (clip ((y -ℤ pos ih) +ℤ pos 1)) 0 (gh - ih)

-- `strings.Split` at line breaks.
pub split_lines : Bytes → Bytes → List Bytes
split_lines line [] = line ∷ []
split_lines line (c ∷ cs) =
    let onward = split_lines (line ++ c ∷ []) cs in
    let next = split_lines [] cs in if c == 10 then line ∷ next else onward

-- `sized` of the grid of a view that is there.
abbrev pub sized : Grid → Bool
sized g = ltb 0 g.w

on_some : {X Y : Type 0} → (X → Y) → Option X → Option Y
on_some f none = none
on_some f (some x) = some (f x)

module _ (A : Ansi) where
  -- `cardTop`
  unfoldable pub card_top : Style → Style → Bytes → ℕ → Bytes
  unfolding repeat
  card_top line name label iw =
      let head =
        A.render line (dash ++ blank)
        ++ (A.render name (A.truncate label (iw - 4) ellipsis) ++ A.render line blank) in
      let fill = repeat dash (iw - A.width head) in
      A.render line top_left ++ (head ++ A.render line (fill ++ top_right))

  -- The reference on the right of the bottom, if the card is wide enough for it.
  unfoldable pub tail_of : Style → PaneRef → ℕ → Bytes
  tail_of line ref iw =
      let label = A.truncate (ref_string ref) (iw - 4) ellipsis in
      if leb (A.width label + 4) iw
      then A.render line blank ++ (A.render ref_style label ++ A.render line (blank ++ dash))
      else []

  -- The badge on the left, if there is one and room for it.
  unfoldable pub lead_of : Style → Option (Bytes × Style) → Bytes → ℕ → Bytes
  lead_of line none tail iw = []
  lead_of line (some (text, style)) tail iw =
      let candidate =
        A.render line (dash ++ blank) ++ (A.render style text ++ A.render line blank) in
      if leb (A.width candidate + A.width tail + 1) iw then candidate else []

  -- `cardBottom`
  unfoldable pub card_bottom : Style → Option PaneState → PaneRef → ℕ → Bytes
  unfolding repeat tail_of lead_of lifecycle_badge
  card_bottom line st ref iw =
      let tail = tail_of line ref iw in
      let lead = lead_of line (lifecycle_badge st) tail iw in
      let fill = repeat dash (iw - A.width lead - A.width tail) in
      A.render line bottom_left
      ++ (lead ++ (A.render line fill ++ (tail ++ A.render line bottom_right)))

  -- What a card without a picture says.
  abbrev waiting : Option PaneState → Bytes
  waiting none = codes "connecting" ++ ellipsis
  waiting (some st) = elim st.err [
    | some e ↦ codes "no signal"
    | none ↦ codes "connecting" ++ ellipsis
  ]

  placeholder_rows : Option PaneState → ℕ → ℕ → List Bytes
  unfolding split_lines
  placeholder_rows st iw ih = split_lines [] (A.place iw ih (A.render placeholder (waiting st)))

  -- `cardBody`
  unfoldable pub card_body : Option PaneState → ℕ → ℕ → Option (List Bytes)
  unfolding on_some placeholder_rows render_region crop split_lines
  card_body none iw ih = some (placeholder_rows none iw ih)
  card_body (some st) iw ih =
      let g = st.view.grid in
      let c = st.view.cursor in
      if not (sized g)
      then some (placeholder_rows (some st) iw ih)
      else on_some (split_lines [])
          (render_region g c (pos 0) (pos (crop c.y g.h ih)) (pos iw) (pos ih))

  -- The rows of a card between their edges.
  pub edged : Style → List Bytes → Bytes
  edged line [] = []
  edged line (row ∷ rows) =
      A.render line edge ++ (row ++ (A.render line edge ++ 10 ∷ edged line rows))

  -- `renderCard` for a Pane with its view.
  unfoldable pub render_card : RefPane → Option PaneState → ℕ → ℕ → Bool → Option Bytes
  unfolding card_top card_bottom card_body on_some edged bytes_eq
  render_card p st w h selected =
      let iw = w - 2 in
      let ih = h - 2 in
      let line = if selected then border_sel else border in
      let name = if selected then title_sel else title in
      let label = if bytes_eq p.pane.title [] then p.pane.id else p.pane.title in
      on_some
        (λ rows.
          card_top line name label iw
          ++ 10 ∷ (edged line rows ++ card_bottom line st (pane_ref p) iw))
        (card_body st iw ih)
