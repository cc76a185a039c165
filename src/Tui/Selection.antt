-- ===== src/Tui/Selection.antt =====
-- internal/tui/model.go: moving the selection over the card grid.
use shevet.Prelude.{
  ℕ, ◌+◌, ◌*◌, ◌/◌, ◌%◌, ◌<◌, ◌≡◌, refl, ap, ◌∙◌, ◌⊎◌, inl, inr, false, not, ◌||◌, arith, ltb, ◌==◌,
  if◌then◌else◌, if_cases, ℤ, pos, ◌+ℤ◌, ltb_ℤ, clip,
}
use native.Mathlib.Nat.{mul-add-div_right, div-eq_of_lt, mul-add-mod_self_right, mod-eq_of_lt}
use shevet.Tui.Layout.{layout_cards}
use shevet.Tui.Layout.Fits.{layout_cards-FitsIn}

abbrev pub step_to : ℕ → ℕ → ℕ → ℤ → ℤ → ℕ
step_to n selected cols col row =
    let next = clip row * cols + clip col in
    if ltb_ℤ col (pos 0) || not (ltb_ℤ col (pos cols)) || ltb_ℤ row (pos 0)
    then selected
    else if ltb next n
    then next
    else selected

-- `moveSelection`, by the viewport, the number of Panes and the selection.
unfoldable pub move_selection : ℤ → ℤ → ℕ → ℕ → ℤ → ℤ → ℕ
unfolding layout_cards ◌+ℤ◌
move_selection width height n selected dx dy =
    let cols = (layout_cards width height (pos n)).cols in
    if n == 0
    then selected
    else step_to n selected cols (pos (selected % cols) +ℤ dx) (pos (selected / cols) +ℤ dy)

step_to-bound :
    (n selected cols : ℕ) (col row : ℤ) → selected < n → step_to n selected cols col row < n
step_to-bound n selected cols col row h = ground arith

-- Where a selection stands in a grid of some columns.
abbrev pub StandsAt : ℕ → ℕ → ℤ → ℤ → Type 0
StandsAt cols s col row = (pos (s % cols) ≡ col) × (pos (s / cols) ≡ row)

cell_at :
    (cols k r : ℕ) → 0 < cols → k < cols → ((r * cols + k) % cols ≡ k) × ((r * cols + k) / cols ≡ r)
cell_at cols k r h l = (
  mul-add-mod_self_right r cols k ∙ mod-eq_of_lt l,
  mul-add-div_right h r k ∙ quotient (k / cols) (div-eq_of_lt l),
)
  where
    quotient : (q : ℕ) → q ≡ 0 → r + q ≡ r
    quotient q e = omega (arith, e)

step_to-StandsAt :
    (n selected cols : ℕ) (col row : ℤ)
    → 0 < cols
    → (step_to n selected cols col row ≡ selected)
      ⊎ StandsAt cols (step_to n selected cols col row) col row
step_to-StandsAt n selected cols col row h =
    let next = clip row * cols + clip col in
    let P : ℕ → Type 0 = λ s. (s ≡ selected) ⊎ StandsAt cols s col row in
    if_cases P (ltb_ℤ col (pos 0) || not (ltb_ℤ col (pos cols)) || ltb_ℤ row (pos 0)) selected
      (if ltb next n then next else selected) (λ _. inl refl)
      (λ inside. if_cases P (ltb next n) next selected (λ _. inr (there inside)) (λ _. inl refl))
  where
    parts :
        (ltb_ℤ col (pos 0) || not (ltb_ℤ col (pos cols)) || ltb_ℤ row (pos 0)) ≡ false
        → (pos (clip col) ≡ col) × (clip col < cols) × (pos (clip row) ≡ row)
    parts inside = ground arith

    there :
        (ltb_ℤ col (pos 0) || not (ltb_ℤ col (pos cols)) || ltb_ℤ row (pos 0)) ≡ false
        → StandsAt cols (clip row * cols + clip col) col row
    there inside =
        let (a, b, c) = parts inside in
        let (m, d) = cell_at cols (clip col) (clip row) h b in (ap pos m ∙ a, ap pos d ∙ c)

-- A move of the selection stays among the Panes, and either leaves it or takes it exactly as many
-- columns and rows away as it says.
pub move_selection-moves :
    (width height : ℤ) (n selected : ℕ) (dx dy : ℤ)
    → selected < n
    → (move_selection width height n selected dx dy < n)
      × ((move_selection width height n selected dx dy ≡ selected)
          ⊎ StandsAt
              (layout_cards width height (pos n)).cols
              (move_selection width height n selected dx dy)
              (pos (selected % (layout_cards width height (pos n)).cols) +ℤ dx)
              (pos (selected / (layout_cards width height (pos n)).cols) +ℤ dy))
unfolding move_selection
move_selection-moves width height n selected dx dy h =
    let cols = (layout_cards width height (pos n)).cols in
    let col = pos (selected % cols) +ℤ dx in
    let row = pos (selected / cols) +ℤ dy in
    let P : ℕ → Type 0 = λ s. (s < n) × ((s ≡ selected) ⊎ StandsAt cols s col row) in
    if_cases P (n == 0) selected (step_to n selected cols col row) (λ _. (h, inl refl))
      (λ _. (
        step_to-bound n selected cols col row h,
        step_to-StandsAt n selected cols col row
            (layout_cards-FitsIn width height (pos n)).some_column,
      ))
