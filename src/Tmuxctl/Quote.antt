-- ===== src/Tmuxctl/Quote.antt =====
-- internal/tmuxctl/client.go: how the words of commands become one line for tmux.

-- The characters that make `quoteArg` quote.
use shevet.Prelude.{
  ℕ, ◌≡◌, refl, ◌≢◌, Bool, true, false, not, ◌&&◌, ◌||◌, List, [], ◌∷◌, ◌++◌, map, arith, ◌==◌,
  if◌then◌else◌, if_cases, All, All-append, Bytes, codes, join, Lacks,
}

abbrev pub special : Bytes
special = codes " \t'\"\\;#{}$%"

abbrev pub member : ℕ → Bytes → Bool
member c [] = false
member c (d ∷ s) = c == d || member c s

-- `strings.ContainsAny`
unfoldable pub contains_any : Bytes → Bytes → Bool
contains_any [] chars = false
contains_any (c ∷ s) chars = member c chars || contains_any s chars

-- Every single quote ends the quotation, stands escaped, and begins it again.
unfoldable pub replace_quotes : Bytes → Bytes
replace_quotes [] = []
replace_quotes (c ∷ s) =
    let rest = replace_quotes s in if c == 39 then 39 ∷ 92 ∷ 39 ∷ 39 ∷ rest else c ∷ rest

abbrev pub is_empty : Bytes → Bool
is_empty [] = true
is_empty (c ∷ s) = false

-- `quoteArg`
unfoldable pub quote_arg : Bytes → Bytes
unfolding contains_any replace_quotes
quote_arg s =
    if not (is_empty s) && not (contains_any s special)
    then s
    else 39 ∷ (replace_quotes s ++ 39 ∷ [])

-- `quoteCommand`
unfoldable pub quote_command : List Bytes → Bytes
unfolding quote_arg join
quote_command args = join (map quote_arg args) (codes " ")

-- The line of a sequence of commands.
unfoldable pub command_line : List (List Bytes) → Bytes
unfolding quote_command join
command_line cmds = join (map quote_command cmds) (codes " ; ") ++ 10 ∷ []

-- The characters that stand for themselves in a word for tmux: none that it gives a meaning, no line
-- break, which ends the command, and at the beginning of a word no tilde, which is a home directory.
abbrev is_plain : Bool → ℕ → Bool
is_plain first c = not (member c special) && (not (c == 10) && not (first && c == 126))

-- What tmux reads a text as, by its documented quoting: a word is spelled by plain characters, by a
-- character with a meaning behind a backslash, and by single quotes around what has none. The first
-- argument tells whether the word begins here; no line break can be spelled.
pub data Spells : Bool → Bytes → Bytes → Type 0 where
  done : {first : Bool} → Spells first [] []
  plain :
      {first : Bool} {c : ℕ} {w t : Bytes}
      → is_plain first c ≡ true
      → Spells false w t
      → Spells first (c ∷ w) (c ∷ t)
  escaped :
      {first : Bool} {c : ℕ} {w t : Bytes}
      → member c special ≡ true
      → Spells false w t
      → Spells first (c ∷ w) (92 ∷ c ∷ t)
  quoted :
      {first : Bool} {w t : Bytes} (q : Bytes)
      → Lacks 39 q
      → Lacks 10 q
      → Spells false w t
      → Spells first (q ++ w) (39 ∷ (q ++ 39 ∷ t))

-- Begins with a tilde, and has no character that makes `quoteArg` quote.
abbrev pub bare_tilde : Bytes → Bool
bare_tilde [] = false
bare_tilde (c ∷ s) = c == 126 && not (contains_any (c ∷ s) special)

replace_quotes-Lacks : (s : Bytes) → Lacks 10 s → Lacks 10 (replace_quotes s)
unfolding replace_quotes
replace_quotes-Lacks [] h = tt
replace_quotes-Lacks (c ∷ s) h = ground (arith, replace_quotes-Lacks s h.1)

quote_arg-Lacks : (s : Bytes) → Lacks 10 s → Lacks 10 (quote_arg s)
unfolding quote_arg
quote_arg-Lacks s h =
    if_cases (λ t. Lacks 10 t) (not (is_empty s) && not (contains_any s special)) s
      (39 ∷ (replace_quotes s ++ 39 ∷ [])) (λ _. h)
      (λ _. (
        ground arith,
        All-append (λ c. c ≢ 10) (replace_quotes s) (39 ∷ []) (replace_quotes-Lacks s h)
            (ground arith),
      ))

join-Lacks :
    (ps : List Bytes) (sep : Bytes) → All (Lacks 10) ps → Lacks 10 sep → Lacks 10 (join ps sep)
unfolding join
join-Lacks [] sep h k = tt
join-Lacks (p ∷ []) sep h k = h.0
join-Lacks (p ∷ q ∷ ps) sep h k =
    All-append (λ c. c ≢ 10) p (sep ++ join (q ∷ ps) sep) h.0
      (All-append (λ c. c ≢ 10) sep (join (q ∷ ps) sep) k (join-Lacks (q ∷ ps) sep h.1 k))

module _ (f : Bytes → Bytes) (keeps : (s : Bytes) → Lacks 10 s → Lacks 10 (f s)) where
  map-Lacks : (ps : List Bytes) → All (Lacks 10) ps → All (Lacks 10) (map f ps)
  map-Lacks [] h = tt
  map-Lacks (p ∷ ps) h = (keeps p h.0, map-Lacks ps h.1)

quote_command-Lacks : (args : List Bytes) → All (Lacks 10) args → Lacks 10 (quote_command args)
unfolding quote_command
quote_command-Lacks args h =
    join-Lacks (map quote_arg args) (codes " ") (map-Lacks quote_arg quote_arg-Lacks args h)
      (ground arith)

quote_commands-Lacks :
    (cmds : List (List Bytes)) → All (All (Lacks 10)) cmds → All (Lacks 10) (map quote_command cmds)
quote_commands-Lacks [] h = tt
quote_commands-Lacks (args ∷ cmds) h = (quote_command-Lacks args h.0, quote_commands-Lacks cmds h.1)

-- A line of commands whose words have no line break has one at its end, and no other.
command_line-Lacks :
    (cmds : List (List Bytes))
    → All (All (Lacks 10)) cmds
    → (t : Bytes) × (command_line cmds ≡ t ++ 10 ∷ []) × Lacks 10 t
unfolding command_line
command_line-Lacks cmds h =
    let t = join (map quote_command cmds) (codes " ; ") in
    (
      t,
      refl,
      join-Lacks (map quote_command cmds) (codes " ; ") (quote_commands-Lacks cmds h)
          (ground arith),
    )
