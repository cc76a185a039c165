-- ===== src/Prelude/Text.antt =====
-- Go's byte strings as lists of numbers, and the functions of package strings that the program
-- calls. White space is the ASCII part of `unicode.IsSpace`.
use Prim.Native.Nat.{ℕ}
use Prim.Native.Char.{code}
use Prim.Native.String.{String}
use mathlib.Core.Path.{◌≡◌, refl, sym, ap, ◌∙◌}
use mathlib.Core.Logic.{◌≢◌}
use mathlib.Core.Bool.{Bool, true, false, ◌&&◌, ◌||◌}
use mathlib.Core.Option.{Option, none, some}
use mathlib.Core.List.{List, [], ◌∷◌, ◌++◌, reverse, append-nil, append_assoc}
use native.Mathlib.Omega.{arith}
use shevet.Prelude.Tests.{leb, ◌==◌, if◌then◌else◌}
use shevet.Prelude.Lists.{All}

abbrev pub Bytes : Type 0
Bytes = List ℕ

-- The code points of a literal: its bytes, if it is ASCII.
abbrev pub codes : String → Bytes
codes String.[] = []
codes (String.◌∷◌ c s) = code c ∷ codes s

unfoldable pub bytes_eq : Bytes → Bytes → Bool
bytes_eq [] [] = true
bytes_eq [] (b ∷ bs) = false
bytes_eq (a ∷ as') [] = false
bytes_eq (a ∷ as') (b ∷ bs) = a == b && bytes_eq as' bs

pub bytes_eq→≡ : (s t : Bytes) → bytes_eq s t ≡ true → s ≡ t
unfolding bytes_eq
bytes_eq→≡ [] [] h = refl
bytes_eq→≡ [] (b ∷ t) h = ground arith
bytes_eq→≡ (a ∷ s) [] h = ground arith
bytes_eq→≡ (a ∷ s) (b ∷ t) h = ground (arith, bytes_eq→≡ s t)

pub bytes_eq_refl : (s : Bytes) → bytes_eq s s ≡ true
unfolding bytes_eq
bytes_eq_refl [] = refl
bytes_eq_refl (a ∷ s) = ground (arith, bytes_eq_refl s)

-- `strings.HasPrefix` and `strings.TrimPrefix` in one: what is left behind the prefix.
unfoldable pub strip_prefix : Bytes → Bytes → Option Bytes
strip_prefix [] s = some s
strip_prefix (p ∷ ps) [] = none
strip_prefix (p ∷ ps) (c ∷ s) = if p == c then strip_prefix ps s else none

abbrev pub has_prefix : Bytes → Bytes → Bool
has_prefix s p = elim (strip_prefix p s) [ none ↦ false | some r ↦ true ]

abbrev pub trim_prefix : Bytes → Bytes → Bytes
trim_prefix s p = elim (strip_prefix p s) [ none ↦ s | some r ↦ r ]

-- `strings.Cut` at a separator of any length: what stands before and behind its first occurrence.
unfoldable pub cut_at : Bytes → Bytes → Option (Bytes × Bytes)
unfolding strip_prefix
cut_at sep [] = elim (strip_prefix sep []) [ none ↦ none | some r ↦ some ([], r) ]
cut_at sep (c ∷ s) =
    let later : Option (Bytes × Bytes) = elim (cut_at sep s) [
      | none ↦ none
      | some (b, a) ↦ some (c ∷ b, a)
    ] in
    elim (strip_prefix sep (c ∷ s)) [ none ↦ later | some r ↦ some ([], r) ]

abbrev pub cut_found : Bytes → Option (Bytes × Bytes) → Bytes × Bytes × Bool
cut_found s none = (s, [], false)
cut_found s (some (b, a)) = (b, a, true)

abbrev pub cut : Bytes → Bytes → Bytes × Bytes × Bool
cut s sep = cut_found s (cut_at sep s)

abbrev pub is_space : ℕ → Bool
is_space c = c == 32 || (leb 9 c && leb c 13)

unfoldable pub trim_left : Bytes → Bytes
trim_left [] = []
trim_left (c ∷ s) = if is_space c then trim_left s else c ∷ s

unfoldable pub trim_space : Bytes → Bytes
unfolding trim_left
trim_space s = reverse (trim_left (reverse (trim_left s)))

-- A field that is complete joins those behind it; an empty one is none.
abbrev pub close_field : Bytes → List Bytes → List Bytes
close_field [] rest = rest
close_field (c ∷ cur) rest = (c ∷ cur) ∷ rest

-- `strings.Fields`; the first argument is the field being read.
unfoldable pub fields_from : Bytes → Bytes → List Bytes
fields_from cur [] = close_field cur []
fields_from cur (c ∷ s) =
    let next = fields_from [] s in
    let longer = fields_from (cur ++ c ∷ []) s in
    if is_space c then close_field cur next else longer

unfoldable pub fields : Bytes → List Bytes
unfolding fields_from
fields = fields_from []

-- `strings.Join`
unfoldable pub join : List Bytes → Bytes → Bytes
join [] sep = []
join (p ∷ []) sep = p
join (p ∷ q ∷ ps) sep = p ++ (sep ++ join (q ∷ ps) sep)

abbrev pub Lacks : ℕ → Bytes → Type 0
Lacks b = All (λ c. c ≢ b)

-- A word: not empty, and without white space.
abbrev pub IsWord : Bytes → Type 0
IsWord s = (s ≢ []) × All (λ c. is_space c ≡ false) s

fields_from-append :
    (w cur s : Bytes)
    → All (λ c. is_space c ≡ false) w
    → fields_from cur (w ++ s) ≡ fields_from (cur ++ w) s
unfolding fields_from
fields_from-append [] cur s h = rw (append-nil cur)
fields_from-append (c ∷ w) cur s h =
    rw (h.0, fields_from-append w (cur ++ c ∷ []) s h.1, append_assoc cur (c ∷ []) w) refl

close_field-word : (w : Bytes) (rest : List Bytes) → w ≢ [] → close_field w rest ≡ w ∷ rest
close_field-word [] rest h = absurd (h refl)
close_field-word (c ∷ w) rest h = refl

-- Words with single spaces between them are the fields of the text.
pub fields-join : (ws : List Bytes) → All IsWord ws → fields (join ws (32 ∷ [])) ≡ ws
unfolding fields fields_from join
fields-join [] h = refl
fields-join (w ∷ []) h =
    ap (fields_from []) (sym (append-nil w))
    ∙ (fields_from-append w [] [] h.0.1 ∙ close_field-word w [] h.0.0)
fields-join (w ∷ v ∷ ws) h = rw (fields_from-append w [] (32 ∷ join (v ∷ ws) (32 ∷ [])) h.0.1) (
    close_field-word w (fields_from [] (join (v ∷ ws) (32 ∷ []))) h.0.0
    ∙ ap (λ r. w ∷ r) (fields-join (v ∷ ws) h.1))

pub strip_prefix-append : (p s : Bytes) → strip_prefix p (p ++ s) ≡ some s
unfolding strip_prefix
strip_prefix-append [] s = refl
strip_prefix-append (c ∷ p) s = ground (arith, strip_prefix-append p s)

-- A text is cut at the separator that it was joined with, if the first part lacks its first byte.
pub cut_at-join :
    (b : ℕ) (sep s t : Bytes) → Lacks b s → cut_at (b ∷ sep) (s ++ (b ∷ (sep ++ t))) ≡ some (s, t)
unfolding cut_at strip_prefix
cut_at-join b sep [] t h = ground (arith, strip_prefix-append sep t)
cut_at-join b sep (c ∷ s) t h = ground (arith, cut_at-join b sep s t h.1)
