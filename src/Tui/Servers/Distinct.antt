-- ===== src/Tui/Servers/Distinct.antt =====
-- internal/tui/model.go: with the aliases that `NewServers` accepts, a host names one
-- connection.
use mathlib.Core.Path.{subst}
use shevet.Prelude.{
  ℕ, ◌≡◌, refl, sym, ◌∙◌, ◌≢◌, ◌↔◌, inl, inr, Bool, true, false, ◌||◌, none, some, List, [], ◌∷◌,
  arith, Bool-cases, Option-cases, All, All-mono, Bytes, bytes_eq, bytes_eq_refl,
}
use shevet.Prelude.Maps.{
  Entries, lookup, insert, bytes_ne, bytes_cases, lookup-insert_self, lookup-insert_ne,
}
use shevet.Tui.Dashboard.{Server, conns_of, new_model}
use shevet.Tui.Servers.{is_in, check_aliases, accepted, new_servers}

-- Pairwise different.
abbrev pub Distinct {ℓ} : {A : Type ℓ} → List A → Type ℓ
Distinct [] = Unit
Distinct (x ∷ xs) = All (λ y. x ≢ y) xs × Distinct xs

abbrev pub HasAlias : Server → Type 0
HasAlias s = s.alias ≢ []

abbrev pub aliases : List Server → List Bytes
aliases [] = []
aliases (s ∷ ss) = s.alias ∷ aliases ss

is_in-no : (a : Bytes) (seen : List Bytes) → is_in a seen ≡ false → All (λ b. b ≢ a) seen
is_in-no a [] h = tt
is_in-no a (b ∷ seen) h =
    let (e, t) = neither (bytes_eq b a) (is_in a seen) h in (λ p. differ e p, is_in-no a seen t)
  where
    neither : (x y : Bool) → (x || y) ≡ false → (x ≡ false) × (y ≡ false)
    neither x y e = ground arith

    differ : bytes_eq b a ≡ false → b ≡ a → ⊥
    differ e p =
        let e' : bytes_eq a a ≡ false = subst (λ x. bytes_eq x a ≡ false) p e in
        absurd (ground (arith, bytes_eq_refl a))

is_in-yes : (a : Bytes) (seen : List Bytes) → All (λ b. b ≢ a) seen → is_in a seen ≡ false
is_in-yes a [] h = refl
is_in-yes a (b ∷ seen) h = rw (bytes_ne b a h.0, is_in-yes a seen h.1) refl

-- The checks of the loop, one server after another.
Passes : List Bytes → List Server → Type 0
Passes seen [] = Unit
Passes seen (s ∷ ss) = HasAlias s × All (λ b. b ≢ s.alias) seen × Passes (s.alias ∷ seen) ss

check_aliases-Passes :
    (seen : List Bytes) (ss : List Server) → check_aliases seen ss ≡ none → Passes seen ss
unfolding check_aliases Passes
check_aliases-Passes seen [] h = tt
check_aliases-Passes seen (s ∷ ss) h = elim (bytes_cases s.alias []) [
  | inl e ↦ absurd (refuses (subst (λ x. bytes_eq x [] ≡ true) (sym e) refl))
  | inr n ↦ elim (Bool-cases (is_in s.alias seen)) [
    | inl dup ↦ absurd (repeats (bytes_ne s.alias [] n) dup)
    | inr new ↦ (
      n,
      is_in-no s.alias seen new,
      check_aliases-Passes (s.alias ∷ seen) ss (rw (bytes_ne s.alias [] n, new) at h),
    )
  ]
]
  where
    refuses : bytes_eq s.alias [] ≡ true → ⊥
    refuses e = absurd (ground arith)

    repeats : bytes_eq s.alias [] ≡ false → is_in s.alias seen ≡ true → ⊥
    repeats n dup = absurd (ground arith)

Passes-check_aliases :
    (seen : List Bytes) (ss : List Server) → Passes seen ss → check_aliases seen ss ≡ none
unfolding check_aliases Passes
Passes-check_aliases seen [] h = refl
Passes-check_aliases seen (s ∷ ss) (n, new, rest) =
    rw (bytes_ne s.alias [] n, is_in-yes s.alias seen new)
      (Passes-check_aliases (s.alias ∷ seen) ss rest)

-- Every server's alias differs from every one that was seen.
abbrev Apart : List Bytes → List Server → Type 0
Apart seen ss = All (λ (s : Server). All (λ b. b ≢ s.alias) seen) ss

Passes-split :
    (seen : List Bytes) (ss : List Server)
    → Passes seen ss
    → All HasAlias ss × Apart seen ss × Distinct (aliases ss)
unfolding Passes
Passes-split seen [] h = (tt, tt, tt)
Passes-split seen (s ∷ ss) (n, new, rest) =
    let (a, b, d) = Passes-split (s.alias ∷ seen) ss rest in
    (
      (n, a),
      (
        new,
        All-mono (λ (x : Server). All (λ b. b ≢ x.alias) (s.alias ∷ seen))
            (λ (x : Server). All (λ b. b ≢ x.alias) seen) ss (λ x h. h.1) b,
      ),
      (heads ss b, d),
    )
  where
    heads : (ss : List Server) → Apart (s.alias ∷ seen) ss → All (λ y. s.alias ≢ y) (aliases ss)
    heads [] h = tt
    heads (x ∷ xs) h = (h.0.0, heads xs h.1)

split-Passes :
    (seen : List Bytes) (ss : List Server)
    → All HasAlias ss
    → Apart seen ss
    → Distinct (aliases ss)
    → Passes seen ss
unfolding Passes
split-Passes seen [] a b d = tt
split-Passes seen (s ∷ ss) a b d =
    (a.0, b.0, split-Passes (s.alias ∷ seen) ss a.1 (joined ss d.0 b.1) d.1)
  where
    joined :
        (ss : List Server)
        → All (λ y. s.alias ≢ y) (aliases ss)
        → Apart seen ss
        → Apart (s.alias ∷ seen) ss
    joined [] h k = tt
    joined (x ∷ xs) h k = ((h.0, k.0), joined xs h.1 k.1)

-- `NewServers` accepts its servers exactly if each has an alias, and no two share one.
pub new_servers-accepted :
    (ss : List Server) → (new_servers ss ≡ accepted ss) ↔ (All HasAlias ss × Distinct (aliases ss))
unfolding new_servers
new_servers-accepted ss = (there, back)
  where
    all_apart : (xs : List Server) → Apart [] xs
    all_apart [] = tt
    all_apart (x ∷ xs) = (tt, all_apart xs)

    there : new_servers ss ≡ accepted ss → All HasAlias ss × Distinct (aliases ss)
    there h = elim (Option-cases (check_aliases [] ss)) [
      | inl e ↦ let (a, b, d) = Passes-split [] ss (check_aliases-Passes [] ss e) in (a, d)
      | inr (x, e) ↦ absurd (ground arith)
    ]

    back : All HasAlias ss × Distinct (aliases ss) → new_servers ss ≡ accepted ss
    back (a, d) =
        rw (Passes-check_aliases [] ss (split-Passes [] ss a (all_apart ss) d), new_servers) refl

lookup-conns_of_other :
    (a : Bytes) (ss : List Server) (conns : Entries ℕ)
    → All (λ b. a ≢ b) (aliases ss)
    → lookup a (conns_of ss conns) ≡ lookup a conns
unfolding conns_of
lookup-conns_of_other a [] conns h = refl
lookup-conns_of_other a (s ∷ ss) conns h =
    lookup-conns_of_other a ss (insert s.alias s.conn conns) h.1
    ∙ lookup-insert_ne s.alias a s.conn conns (λ e. h.0 (sym e))

-- The alias of a server names its connection.
abbrev pub Resolves : Entries ℕ → Server → Type 0
Resolves conns s = lookup s.alias conns ≡ some s.conn

conns_of-Resolves :
    (ss : List Server) (conns : Entries ℕ)
    → Distinct (aliases ss)
    → All (Resolves (conns_of ss conns)) ss
unfolding conns_of
conns_of-Resolves [] conns d = tt
conns_of-Resolves (s ∷ ss) conns d =
    let more = insert s.alias s.conn conns in
    (
      lookup-conns_of_other s.alias ss more d.0 ∙ lookup-insert_self s.alias s.conn conns,
      conns_of-Resolves ss more d.1,
    )

-- In a dashboard of servers that `NewServers` accepts, the alias of each names its own connection.
pub new_model-Resolves :
    (ss : List Server) → new_servers ss ≡ accepted ss → All (Resolves (new_model ss).conns) ss
unfolding new_model
new_model-Resolves ss h = conns_of-Resolves ss [] ((new_servers-accepted ss).0 h).1
