-- ===== src/Server/PaneLine.antt =====
-- internal/server/watcher.go: a line that tmux lists is read as the pane that it says.
use mathlib.Core.Path.{subst}
use shevet.Prelude.{
  ℕ, ◌≤◌, ◌≡◌, refl, sym, ap, ◌∙◌, ◌≢◌, true, false, ◌||◌, some, [], ◌∷◌, ◌++◌, append-nil, arith,
  ◌==◌, All, All-mono, pos, Bytes, codes, is_space, Lacks, cut_at-join,
}
use shevet.Prelude.Decimal.{
  decimal, is_digit, max_int, IsDigit, decimal-IsDigit, decimal-cons, atoi-decimal,
}
use shevet.Server.Watcher.{
  ok, skip_spaces, split_digits, with_rest, signed, scan_signed, scan_int, scan_gap, second_int,
  behind_first, from_first, scan_pair,
}
use shevet.Server.Reconcile.{
  last_part, third_part, second_part, four_parts, check_geometry, check_parts, parse_pane_line,
}

-- A text that a number ends at.
abbrev Ends : Bytes → Type 0
Ends [] = Unit {0}
Ends (c ∷ s) = is_digit c ≡ false

split_digits-append : (s t : Bytes) → All IsDigit s → Ends t → split_digits (s ++ t) ≡ (s, t)
split_digits-append [] [] h e = refl
split_digits-append [] (c ∷ t) h e = rw e refl
split_digits-append (c ∷ s) t h e = rw (digit c h.0, split_digits-append s t h.1 e) refl
  where
    digit : (c : ℕ) → IsDigit c → is_digit c ≡ true
    digit c d = ground arith

scan_int-digit :
    (c : ℕ) (s : Bytes) → IsDigit c → scan_int (c ∷ s) ≡ signed [] (split_digits (c ∷ s))
unfolding scan_int skip_spaces scan_signed
scan_int-digit c s d = rw (no_space d, no_sign d) refl
  where
    no_space : IsDigit c → is_space c ≡ false
    no_space d = ground arith

    no_sign : IsDigit c → (c == b'-' || c == b'+') ≡ false
    no_sign d = ground arith

signed-decimal : (n : ℕ) (t : Bytes) → n ≤ max_int → signed [] (decimal n, t) ≡ some (pos n, t)
signed-decimal n t h = ap (with_rest t) (atoi-decimal n h)

scan_int-decimal :
    (n : ℕ) (t : Bytes) → n ≤ max_int → Ends t → scan_int (decimal n ++ t) ≡ some (pos n, t)
scan_int-decimal n t h e =
    let (c, s, eq) = decimal-cons n in
    ap (λ x. scan_int (x ++ t)) eq
    ∙ (scan_int-digit c (s ++ t) (subst (All IsDigit) eq (decimal-IsDigit n)).0
        ∙ (ap (λ x. signed [] (split_digits (x ++ t))) (sym eq)
            ∙ (ap (signed []) (split_digits-append (decimal n) t (decimal-IsDigit n) e)
                ∙ signed-decimal n t h)))

skip_spaces-decimal : (n : ℕ) (t : Bytes) → skip_spaces (decimal n ++ t) ≡ decimal n ++ t
unfolding skip_spaces
skip_spaces-decimal n t =
    let (c, s, eq) = decimal-cons n in
    let d = (subst (All IsDigit) eq (decimal-IsDigit n)).0 in
    subst (λ x. skip_spaces (x ++ t) ≡ x ++ t) (sym eq) (rw (no_space c d) refl)
  where
    no_space : (c : ℕ) → IsDigit c → is_space c ≡ false
    no_space c d = ground arith

scan_pair-decimal :
    (w h : ℕ)
    → w ≤ max_int
    → h ≤ max_int
    → scan_pair (decimal w ++ (codes " " ++ decimal h)) ≡ (some (pos w), some (pos h))
unfolding scan_pair from_first behind_first scan_gap
scan_pair-decimal w h a b =
    let text = decimal h in
    ap from_first (scan_int-decimal w (codes " " ++ text) a refl)
    ∙ (ap (λ x. second_int (pos w) (scan_int x))
          (ap skip_spaces (sym (append-nil text)) ∙ skip_spaces-decimal h [])
        ∙ ap (second_int (pos w)) (scan_int-decimal h [] b tt))

four_parts-join :
    (id w h title : Bytes)
    → Lacks 9 id
    → Lacks 9 w
    → Lacks 9 h
    → four_parts (id ++ (codes "\t" ++ (w ++ (codes "\t" ++ (h ++ (codes "\t" ++ title))))))
      ≡ some (id, w, h, title)
unfolding four_parts second_part third_part
four_parts-join id w h title a b c =
    let third = h ++ (codes "\t" ++ title) in
    let second = w ++ (codes "\t" ++ third) in
    ap second_part (cut_at-join 9 [] id second a)
    ∙ (ap (third_part id) (cut_at-join 9 [] w third b)
        ∙ ap (last_part id w) (cut_at-join 9 [] h title c))

decimal-Lacks : (n : ℕ) → Lacks 9 (decimal n)
decimal-Lacks n = All-mono IsDigit (λ c. c ≢ 9) (decimal n) other (decimal-IsDigit n)
  where
    other : (c : ℕ) → IsDigit c → c ≢ 9
    other c d = ground arith

check_geometry-ok :
    (line id title : Bytes) (w h : ℕ)
    → 1 ≤ w
    → w ≤ 16384
    → 1 ≤ h
    → h ≤ 16384
    → check_geometry line id title (some (pos w), some (pos h))
      ≡ ok (record { id = id; width = pos w; height = pos h; title = title })
unfolding check_geometry
check_geometry-ok line id title w h a b c d = ground arith

-- A line of an id without tabs, two lengths from 1 to 16384, and a title, which may hold anything,
-- is read as the pane with these.
pub parse_pane_line-decimal :
    (id title : Bytes) (w h : ℕ)
    → Lacks 9 id
    → 1 ≤ w
    → w ≤ 16384
    → 1 ≤ h
    → h ≤ 16384
    → parse_pane_line
        (id ++ (codes "\t" ++ (decimal w ++ (codes "\t" ++ (decimal h ++ (codes "\t" ++ title))))))
      ≡ ok (record { id = id; width = pos w; height = pos h; title = title })
unfolding parse_pane_line check_parts
parse_pane_line-decimal id title w h l a b c d =
    let line =
      id ++ (codes "\t" ++ (decimal w ++ (codes "\t" ++ (decimal h ++ (codes "\t" ++ title))))) in
    ap (check_parts line)
      (four_parts-join id (decimal w) (decimal h) title l (decimal-Lacks w) (decimal-Lacks h))
    ∙ (ap (check_geometry line id title) (scan_pair-decimal w h (omega arith) (omega arith))
        ∙ check_geometry-ok line id title w h a b c d)
