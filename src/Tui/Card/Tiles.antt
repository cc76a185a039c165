-- ===== src/Tui/Card/Tiles.antt =====
-- internal/tui/view.go: the cards on screen are those of the visible rows, each once, in order.
use mathlib.Core.Path.{ap₂}
use shevet.Prelude.{
  ℕ, suc, zero, ◌+◌, ◌-◌, ◌*◌, ◌/◌, ◌≤◌, ◌<◌, min, ◌≡◌, refl, sym, ap, ◌∙◌, List, [], ◌∷◌, ◌++◌,
  map, append-nil, arith, leb, if◌then◌else◌, leb→le, if_cases, ℤ, pos, Bytes, dec_lt,
}
use shevet.Tui.Layout.{CardLayout, row_offset, layout_cards, gutter_x, gutter_y}
use shevet.Tui.Layout.Fits.{row_offset-layout_cards, layout_cards-FitsIn}
use shevet.Grid.Bounds.{row_before}
use native.Mathlib.Nat.{div-mul-le_self, lt-div-mul-add}
use shevet.Tui.Card.{Ansi, repeat, blank}

-- The inner loop of `cardsView`: the cards of a row, `k` columns more from card `i` on.
unfoldable pub row_cards : ℕ → ℕ → ℕ → List ℕ
row_cards n zero i = []
row_cards n (suc k) i = let rest = row_cards n k (i + 1) in if leb n i then [] else i ∷ rest

-- The rows that it draws, `k` more from row `r` on.
unfoldable pub rows_from : ℕ → ℕ → ℕ → ℕ → List (List ℕ)
unfolding row_cards
rows_from n cols zero r = []
rows_from n cols (suc k) r = row_cards n cols (r * cols) ∷ rows_from n cols k (r + 1)

-- The number of rows from the offset on, and their cards.
abbrev pub row_count : CardLayout → ℕ → ℕ
row_count l off = min (off + l.visible_rows) l.rows - off

unfoldable pub shown_rows : CardLayout → ℕ → ℕ → List (List ℕ)
unfolding rows_from row_offset
shown_rows l n selected =
    let off = row_offset l selected in rows_from n l.cols (row_count l off) off

-- A gutter between the cards of a row, and a blank line between rows.
separated : Bytes → List Bytes → List Bytes
separated sep [] = []
separated sep (x ∷ []) = x ∷ []
separated sep (x ∷ y ∷ xs) = x ∷ sep ∷ separated sep (y ∷ xs)

-- `cardsView`, where `card` draws the card of a Pane by its place in the Herd.
unfoldable pub cards_view : Ansi → (ℕ → Bytes) → CardLayout → ℕ → ℕ → Bytes
unfolding shown_rows separated repeat
cards_view A card l n selected =
    let gutter = repeat blank gutter_x in
    let row : List ℕ → Bytes = λ cards. A.join_horizontal (separated gutter (map card cards)) in
    A.join_vertical
      (separated (repeat (10 ∷ []) (gutter_y - 1)) (map row (shown_rows l n selected)))

unfoldable pub concat : List (List ℕ) → List ℕ
concat [] = []
concat (xs ∷ xss) = xs ++ concat xss

-- `k` numbers from `i` on.
abbrev pub numbers : ℕ → ℕ → List ℕ
numbers i zero = []
numbers i (suc k) = i ∷ numbers (i + 1) k

numbers_at : (i j k : ℕ) → i ≡ j → numbers i k ≡ numbers j k
numbers_at i j k e = ap (λ x. numbers x k) e

numbers_for : (i j k : ℕ) → j ≡ k → numbers i j ≡ numbers i k
numbers_for i j k e = ap (λ x. numbers i x) e

numbers-append : (a b i : ℕ) → numbers i a ++ numbers (i + a) b ≡ numbers i (a + b)
numbers-append zero b i =
    numbers_at (i + 0) i b (omega arith) ∙ numbers_for i b (0 + b) (omega arith)
numbers-append (suc a) b i =
    ap (λ xs. i ∷ (numbers (i + 1) a ++ xs)) (numbers_at (i + suc a) (i + 1 + a) b (omega arith))
    ∙ (ap (λ xs. i ∷ xs) (numbers-append a b (i + 1))
        ∙ numbers_for i (suc (a + b)) (suc a + b) (omega arith))

row_cards-numbers : (n k i : ℕ) → row_cards n k i ≡ numbers i (min k (n - i))
unfolding row_cards
row_cards-numbers n zero i = numbers_for i 0 (min 0 (n - i)) (omega arith)
row_cards-numbers n (suc k) i =
    if_cases (λ xs. xs ≡ numbers i (min (suc k) (n - i))) (leb n i) [] (i ∷ row_cards n k (i + 1))
      (λ h. numbers_for i 0 (min (suc k) (n - i)) (omega (arith, leb→le n i h)))
      (λ h.
        ap (λ xs. i ∷ xs) (row_cards-numbers n k (i + 1))
        ∙ numbers_for i (suc (min k (n - (i + 1)))) (min (suc k) (n - i)) (ground arith))

one_row :
    (n a c k : ℕ)
    → numbers a (min c (n - a)) ++ numbers (a + c) (min k (n - (a + c)))
      ≡ numbers a (min (c + k) (n - a))
one_row n a c k = elim (dec_lt n (a + c)) [
  | yes short ↦
      ap (λ xs. numbers a (min c (n - a)) ++ xs)
        (numbers_for (a + c) (min k (n - (a + c))) 0 (omega arith))
      ∙ (append-nil (numbers a (min c (n - a)))
          ∙ numbers_for a (min c (n - a)) (min (c + k) (n - a)) (omega arith))
  | no full ↦
      ap (λ xs. xs ++ numbers (a + c) (min k (n - (a + c))))
        (numbers_for a (min c (n - a)) c (omega arith))
      ∙ (numbers-append c (min k (n - (a + c))) a
          ∙ numbers_for a (c + min k (n - (a + c))) (min (c + k) (n - a)) (omega arith))
]

rows_from-numbers :
    (n cols k r : ℕ)
    → concat (rows_from n cols k r) ≡ numbers (r * cols) (min (k * cols) (n - r * cols))
unfolding rows_from concat
rows_from-numbers n cols zero r = numbers_for (r * cols) 0 _ (grind arith)
rows_from-numbers n cols (suc k) r =
    let next : (r + 1) * cols ≡ r * cols + cols = grind arith in
    let more : cols + k * cols ≡ suc k * cols = grind arith in
    ap₂ (λ (xs ys : List ℕ). xs ++ ys) (row_cards-numbers n cols (r * cols))
      (rows_from-numbers n cols k (r + 1))
    ∙ (ap (λ x. numbers (r * cols) (min cols (n - r * cols)) ++ numbers x (min (k * cols) (n - x)))
          next
        ∙ (one_row n (r * cols) cols (k * cols)
            ∙ ap (λ x. numbers (r * cols) (min x (n - r * cols))) more))

in_rows :
    (off vis c s q : ℕ)
    → off ≤ q
    → q < off + vis
    → q * c ≤ s
    → s < q * c + c
    → (off * c ≤ s) × (s < off * c + vis * c)
in_rows off vis c s q a b lo hi =
    let below : off * c ≤ q * c = grind arith in
    let above = row_before c (s - q * c) q (off + vis) (omega arith) b in
    let split : (off + vis) * c ≡ off * c + vis * c = grind arith in (omega arith, omega arith)

-- The Panes of a row of the layout.
abbrev pub row_panes : ℕ → ℕ → ℕ → List ℕ
row_panes n cols r = numbers (r * cols) (min cols (n - r * cols))

rows_from-panes : (n cols k r : ℕ) → rows_from n cols k r ≡ map (row_panes n cols) (numbers r k)
unfolding rows_from
rows_from-panes n cols zero r = refl
rows_from-panes n cols (suc k) r =
    ap₂ (λ (xs : List ℕ) (xss : List (List ℕ)). xs ∷ xss) (row_cards-numbers n cols (r * cols))
      (rows_from-panes n cols k (r + 1))

-- In the layout of any viewport for `n` Panes, the rows on screen are the visible rows from the offset
-- of the selection on, which are rows of the grid, each with its Panes, as many as there are columns
-- or as are left; so they are together consecutive Panes, and the selected one is among them.
pub shown_rows-layout_cards :
    (vw vh : ℤ) (n selected first count : ℕ)
    → selected < n
    → first ≡ row_offset (layout_cards vw vh (pos n)) selected * (layout_cards vw vh (pos n)).cols
    → count
      ≡ min
          ((layout_cards vw vh (pos n)).visible_rows * (layout_cards vw vh (pos n)).cols)
          (n - first)
    → (shown_rows (layout_cards vw vh (pos n)) n selected
        ≡ map (row_panes n (layout_cards vw vh (pos n)).cols) (
            numbers
              (row_offset (layout_cards vw vh (pos n)) selected)
              (layout_cards vw vh (pos n)).visible_rows))
      × (row_offset (layout_cards vw vh (pos n)) selected
            + (layout_cards vw vh (pos n)).visible_rows
          ≤ (layout_cards vw vh (pos n)).rows)
      × (concat (shown_rows (layout_cards vw vh (pos n)) n selected) ≡ numbers first count)
      × (first ≤ selected)
      × (selected < first + count)
unfolding shown_rows
shown_rows-layout_cards vw vh n selected first count h ef ec =
    let l = layout_cards vw vh (pos n) in
    let off = row_offset l selected in
    let cnt = row_count l off in
    let (above, below, there) = row_offset-layout_cards vw vh (pos n) selected (omega arith) in
    let some_column = (layout_cards-FitsIn vw vh (pos n)).some_column in
    let (lo, hi) =
      in_rows off l.visible_rows l.cols selected (selected / l.cols) above below
        (div-mul-le_self selected l.cols) (lt-div-mul-add some_column) in
    let all : cnt ≡ l.visible_rows = omega arith in
    let all_rows : cnt * l.cols ≡ l.visible_rows * l.cols =
      ap (λ x. x * l.cols) {x = cnt} {y = l.visible_rows} all in
    (
      rows_from-panes n l.cols cnt off ∙ ap (λ k. map (row_panes n l.cols) (numbers off k)) all,
      there,
      rows_from-numbers n l.cols cnt off
          ∙ (numbers_at (off * l.cols) first _ (sym ef)
              ∙ numbers_for first (min (cnt * l.cols) (n - off * l.cols)) count (omega arith)),
      omega arith,
      omega arith,
    )
