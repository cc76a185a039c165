-- ===== src/Tui/Dashboard/Views.antt =====
-- internal/tui/model.go: the map of views, as its readers and writers need it.
use mathlib.Core.Path.{subst, ap₂}
use shevet.Prelude.{
  ◌≡◌, refl, sym, ap, ◌∙◌, ◌≢◌, ◌⊎◌, inl, inr, Bool, true, false, ◌&&◌, ◌||◌, none, some, [], ◌∷◌,
  arith, Bool-cases, Bytes, bytes_eq, bytes_eq→≡, bytes_eq_refl,
}
use shevet.Tui.Focus.{PaneRef}
use shevet.Tui.Dashboard.{PaneState, Views, ref_eq, find_view, put_view, keep_views, is_there}

pub ref_eq→≡ : (a b : PaneRef) → ref_eq a b ≡ true → a ≡ b
unfolding ref_eq
ref_eq→≡ a b h =
    let P : Bytes → Bytes → PaneRef = λ x y. record { host = x; id = y } in
    let (p, q) = both (bytes_eq a.host b.host) (bytes_eq a.id b.id) h in
    ap₂ P (bytes_eq→≡ a.host b.host p) (bytes_eq→≡ a.id b.id q)
  where
    both : (x y : Bool) → (x && y) ≡ true → (x ≡ true) × (y ≡ true)
    both x y e = ground arith

pub ref_eq_refl : (a : PaneRef) → ref_eq a a ≡ true
unfolding ref_eq
ref_eq_refl a = rw (bytes_eq_refl a.host, bytes_eq_refl a.id) refl

pub ref_ne : (a b : PaneRef) → a ≢ b → ref_eq a b ≡ false
ref_ne a b n = elim (Bool-cases (ref_eq a b)) [ inl e ↦ absurd (n (ref_eq→≡ a b e)) | inr e ↦ e ]

pub ref_cases : (a b : PaneRef) → (a ≡ b) ⊎ (a ≢ b)
ref_cases a b = elim (Bool-cases (ref_eq a b)) [
  | inl e ↦ inl (ref_eq→≡ a b e)
  | inr e ↦ inr (λ p. differ e p)
]
  where
    differ : ref_eq a b ≡ false → a ≡ b → ⊥
    differ e p =
        let e' : ref_eq a a ≡ false = subst (λ x. ref_eq a x ≡ false) (sym p) e in
        absurd (ground (arith, ref_eq_refl a))

pub find_view-put_self :
    (r : PaneRef) (st : PaneState) (v : Views) → find_view r (put_view r st v) ≡ some st
unfolding find_view put_view
find_view-put_self r st [] = rw (ref_eq_refl r) refl
find_view-put_self r st ((k, old) ∷ v) = elim (Bool-cases (ref_eq k r)) [
  | inl e ↦ rw (e, e) refl
  | inr e ↦ rw (e, e) (find_view-put_self r st v)
]

pub find_view-put_ne :
    (k r : PaneRef) (st : PaneState) (v : Views)
    → k ≢ r
    → find_view r (put_view k st v) ≡ find_view r v
unfolding find_view put_view
find_view-put_ne k r st [] n = rw (ref_ne k r n) refl
find_view-put_ne k r st ((j, old) ∷ v) n = elim (Bool-cases (ref_eq j k)) [
  | inl e ↦ rw (e, ref_ne j r (λ p. n (sym (ref_eq→≡ j k e) ∙ p))) refl
  | inr e ↦ rw (e, find_view-put_ne k r st v n) refl
]

-- What is kept is found as before.
pub find_view-keep_views :
    (keeps : PaneRef → Bool) (r : PaneRef) (v : Views)
    → keeps r ≡ true
    → find_view r (keep_views keeps v) ≡ find_view r v
unfolding find_view keep_views
find_view-keep_views keeps r [] h = refl
find_view-keep_views keeps r ((k, st) ∷ v) h = elim (ref_cases k r) [
  | inl same ↦
      rw
        (
          subst (λ x. keeps x ≡ true) (sym same) h,
          subst (λ x. ref_eq k x ≡ true) same (ref_eq_refl k),
        )
        refl
  | inr other ↦ elim (Bool-cases (keeps k)) [
    | inl e ↦ rw (e, ref_ne k r other, find_view-keep_views keeps r v h) refl
    | inr e ↦ rw (e, ref_ne k r other, find_view-keep_views keeps r v h) refl
  ]
]

pub find_view-dropped :
    (keeps : PaneRef → Bool) (r : PaneRef) (v : Views)
    → keeps r ≡ false
    → find_view r (keep_views keeps v) ≡ none
unfolding find_view keep_views
find_view-dropped keeps r [] h = refl
find_view-dropped keeps r ((k, st) ∷ v) h = elim (Bool-cases (keeps k)) [
  | inr e ↦ rw e (find_view-dropped keeps r v h)
  | inl e ↦ rw (e, ref_ne k r (λ p. differ e p), find_view-dropped keeps r v h) refl
]
  where
    differ : keeps k ≡ true → k ≡ r → ⊥
    differ e p = let e' : keeps r ≡ true = subst (λ x. keeps x ≡ true) p e in absurd (ground arith)

pub is_there-put :
    (k r : PaneRef) (st : PaneState) (v : Views)
    → is_there (find_view r (put_view k st v)) ≡ (ref_eq k r || is_there (find_view r v))
is_there-put k r st v = elim (ref_cases k r) [
  | inl same ↦ rw (subst (λ x. ref_eq k x ≡ true) same (ref_eq_refl k)) (
      ap is_there
        (subst (λ x. find_view x (put_view k st v) ≡ some st) same (find_view-put_self k st v)))
  | inr other ↦ rw (ref_ne k r other, find_view-put_ne k r st v other) refl
]
