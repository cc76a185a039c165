-- ===== src/Prelude/Maps.antt =====
-- Maps with byte strings as keys, as lists of entries; the first entry of a key counts.
use mathlib.Core.Path.{◌≡◌, refl, sym, ◌∙◌, subst}
use mathlib.Core.Logic.{◌≢◌, ◌⊎◌, inl, inr}
use mathlib.Core.Bool.{false}
use mathlib.Core.Option.{Option, none, some}
use mathlib.Core.List.{List, [], ◌∷◌}
use native.Mathlib.Omega.{arith}
use shevet.Prelude.Tests.{if◌then◌else◌, Bool-cases}
use shevet.Prelude.Text.{Bytes, bytes_eq, bytes_eq→≡, bytes_eq_refl}

abbrev pub Entries : Type 0 → Type 0
Entries A = List (Bytes × A)

module _ {A : Type 0} where
  unfoldable pub lookup : Bytes → Entries A → Option A
  unfolding bytes_eq
  lookup k [] = none
  lookup k ((j, a) ∷ m) = let later = lookup k m in if bytes_eq j k then some a else later

  -- The entry is replaced where it stands, or put at the end.
  unfoldable pub insert : Bytes → A → Entries A → Entries A
  unfolding bytes_eq
  insert k a [] = (k, a) ∷ []
  insert k a ((j, b) ∷ m) =
      let later = insert k a m in if bytes_eq j k then (j, a) ∷ m else (j, b) ∷ later

  unfoldable pub delete : Bytes → Entries A → Entries A
  unfolding bytes_eq
  delete k [] = []
  delete k ((j, b) ∷ m) = let rest = delete k m in if bytes_eq j k then rest else (j, b) ∷ rest

pub bytes_ne : (j k : Bytes) → j ≢ k → bytes_eq j k ≡ false
bytes_ne j k n = elim (Bool-cases (bytes_eq j k)) [
  | inl e ↦ absurd (n (bytes_eq→≡ j k e))
  | inr e ↦ e
]

pub bytes_cases : (j k : Bytes) → (j ≡ k) ⊎ (j ≢ k)
bytes_cases j k = elim (Bool-cases (bytes_eq j k)) [
  | inl e ↦ inl (bytes_eq→≡ j k e)
  | inr e ↦ inr (λ p. differ e p)
]
  where
    differ : bytes_eq j k ≡ false → j ≡ k → ⊥
    differ e p =
        let e' : bytes_eq j j ≡ false = subst (λ x. bytes_eq j x ≡ false) (sym p) e in
        absurd (ground (arith, bytes_eq_refl j))

module _ {A : Type 0} where
  pub lookup-insert_self : (k : Bytes) (a : A) (m : Entries A) → lookup k (insert k a m) ≡ some a
  unfolding lookup insert
  lookup-insert_self k a [] = rw (bytes_eq_refl k) refl
  lookup-insert_self k a ((j, b) ∷ m) = elim (Bool-cases (bytes_eq j k)) [
    | inl e ↦ rw (e, e) refl
    | inr e ↦ rw (e, e) (lookup-insert_self k a m)
  ]

  pub lookup-insert_ne :
      (k l : Bytes) (a : A) (m : Entries A) → k ≢ l → lookup l (insert k a m) ≡ lookup l m
  unfolding lookup insert
  lookup-insert_ne k l a [] n = rw (bytes_ne k l n) refl
  lookup-insert_ne k l a ((j, b) ∷ m) n = elim (Bool-cases (bytes_eq j k)) [
    | inl e ↦ rw (e, bytes_ne j l (λ p. n (sym (bytes_eq→≡ j k e) ∙ p))) refl
    | inr e ↦ rw (e, lookup-insert_ne k l a m n) refl
  ]

  pub lookup-delete_self : (k : Bytes) (m : Entries A) → lookup k (delete k m) ≡ none
  unfolding lookup delete
  lookup-delete_self k [] = refl
  lookup-delete_self k ((j, b) ∷ m) = elim (Bool-cases (bytes_eq j k)) [
    | inl e ↦ rw e (lookup-delete_self k m)
    | inr e ↦ rw (e, e) (lookup-delete_self k m)
  ]

  pub lookup-delete_ne : (k l : Bytes) (m : Entries A) → k ≢ l → lookup l (delete k m) ≡ lookup l m
  unfolding lookup delete
  lookup-delete_ne k l [] n = refl
  lookup-delete_ne k l ((j, b) ∷ m) n = elim (Bool-cases (bytes_eq j k)) [
    | inl e ↦ rw (e, bytes_ne j l (λ p. n (sym (bytes_eq→≡ j k e) ∙ p))) (lookup-delete_ne k l m n)
    | inr e ↦ rw (e, lookup-delete_ne k l m n) refl
  ]
