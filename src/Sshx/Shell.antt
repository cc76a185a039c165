-- ===== src/Sshx/Shell.antt =====
-- internal/sshx/channel.go: the command line for the remote login shell, against what POSIX says of
-- its quotes.
use shevet.Prelude.{
  ℕ, ◌≡◌, refl, sym, ap, ◌∙◌, inl, inr, Bool, true, false, Option, none, some, List, [], ◌∷◌, ◌++◌,
  map, append-nil, append_assoc, ◌==◌, if◌then◌else◌, ==_iff, Bool-cases, Bytes, join,
}
use shevet.Tmuxctl.Quote.{replace_quotes}

-- One argument, quoted.
abbrev pub quoted : Bytes → Bytes
quoted a = b'\'' ∷ (replace_quotes a ++ b'\'' ∷ [])

-- `shellQuote`
unfoldable pub shell_quote : List Bytes → Bytes
unfolding replace_quotes join
shell_quote argv = join (map quoted argv) (b' ' ∷ [])

-- The words of a line that uses only single quotes, a backslash outside of them, and blanks between
-- words; `none` for any other line. Everything inside single quotes is literal, and a backslash
-- outside keeps the next byte literal. The first two arguments are whether a quote is open, and the
-- word being read, if there is one.
abbrev closed_word : Option Bytes → List Bytes → List Bytes
closed_word none ws = ws
closed_word (some w) ws = w ∷ ws

abbrev longer : Option Bytes → Bytes → Option Bytes
longer none s = some s
longer (some w) s = some (w ++ s)

then_words : Option Bytes → Option (List Bytes) → Option (List Bytes)
then_words cur none = none
then_words cur (some ws) = some (closed_word cur ws)

words_from : Bool → Option Bytes → Bytes → Option (List Bytes)
unfolding then_words
words_from true cur [] = none
words_from false cur [] = some (closed_word cur [])
words_from true cur (c ∷ s) =
    let shut = words_from false (longer cur []) s in
    let inside = words_from true (longer cur (c ∷ [])) s in if c == b'\'' then shut else inside
words_from false cur (c ∷ []) = if c == b' ' then some (closed_word cur []) else none
words_from false cur (c ∷ d ∷ s) =
    let next = then_words cur (words_from false none (d ∷ s)) in
    let opened = words_from true (longer cur []) (d ∷ s) in
    let escaped = words_from false (longer cur (d ∷ [])) s in
    if c == b' ' then next else if c == b'\'' then opened else if c == b'\\' then escaped else none

pub shell_words : Bytes → Option (List Bytes)
unfolding words_from
shell_words = words_from false none

words_from-open :
    (cur : Option Bytes) (s : Bytes)
    → words_from false cur (b'\'' ∷ s) ≡ words_from true (longer cur []) s
unfolding words_from
words_from-open cur [] = refl
words_from-open cur (d ∷ s) = refl

words_from-blank :
    (cur : Option Bytes) (s : Bytes)
    → words_from false cur (b' ' ∷ s) ≡ then_words cur (words_from false none s)
unfolding words_from then_words
words_from-blank cur [] = refl
words_from-blank cur (d ∷ s) = refl

words_from-escaped :
    (w s : Bytes)
    → words_from true (some w) (b'\'' ∷ b'\\' ∷ b'\'' ∷ b'\'' ∷ s)
      ≡ words_from true (some (w ++ b'\'' ∷ [])) s
unfolding words_from
words_from-escaped w s =
    words_from-open (some ((w ++ []) ++ b'\'' ∷ [])) s
    ∙ ap (λ v. words_from true (some v) s)
        (append-nil ((w ++ []) ++ b'\'' ∷ []) ∙ ap (λ v. v ++ b'\'' ∷ []) (append-nil w))

words_from-inside :
    (w : Bytes) (c : ℕ) (s : Bytes)
    → (c == b'\'') ≡ false
    → words_from true (some w) (c ∷ s) ≡ words_from true (some (w ++ c ∷ [])) s
unfolding words_from
words_from-inside w c s h = rw h refl

-- Inside of quotes an argument is read as it is.
words_from-replace_quotes :
    (a w rest : Bytes)
    → words_from true (some w) (replace_quotes a ++ b'\'' ∷ rest)
      ≡ words_from false (some (w ++ a)) rest
unfolding replace_quotes
words_from-replace_quotes [] w rest = unfold words_from in refl
words_from-replace_quotes (c ∷ a) w rest = elim (Bool-cases (c == b'\'')) [
  | inl e ↦ rw e (
      words_from-escaped w (replace_quotes a ++ b'\'' ∷ rest)
      ∙ (words_from-replace_quotes a (w ++ b'\'' ∷ []) rest
          ∙ ap (λ v. words_from false (some v) rest)
              (append_assoc w (b'\'' ∷ []) a ∙ ap (λ d. w ++ d ∷ a) (sym ((==_iff c b'\'').0 e)))))
  | inr n ↦ rw n (
      words_from-inside w c (replace_quotes a ++ b'\'' ∷ rest) n
      ∙ (words_from-replace_quotes a (w ++ c ∷ []) rest
          ∙ ap (λ v. words_from false (some v) rest) (append_assoc w (c ∷ []) a)))
]

words_from-quoted :
    (a rest : Bytes) → words_from false none (quoted a ++ rest) ≡ words_from false (some a) rest
words_from-quoted a rest =
    words_from-open none ((replace_quotes a ++ b'\'' ∷ []) ++ rest)
    ∙ (ap (words_from true (some [])) (append_assoc (replace_quotes a) (b'\'' ∷ []) rest)
        ∙ words_from-replace_quotes a [] rest)

-- The login shell reads the quoted command line as exactly the arguments, whatever bytes they hold.
pub shell_words-shell_quote : (argv : List Bytes) → shell_words (shell_quote argv) ≡ some argv
unfolding shell_words shell_quote join
shell_words-shell_quote [] = unfold words_from in refl
shell_words-shell_quote (a ∷ []) =
    ap (words_from false none) (sym (append-nil (quoted a)))
    ∙ (words_from-quoted a [] ∙ last_word a)
  where
    last_word : (a : Bytes) → words_from false (some a) [] ≡ some (a ∷ [])
    last_word a = unfold words_from in refl
shell_words-shell_quote (a ∷ b ∷ argv) =
    words_from-quoted a (b' ' ∷ join (map quoted (b ∷ argv)) (b' ' ∷ []))
    ∙ (words_from-blank (some a) (join (map quoted (b ∷ argv)) (b' ' ∷ []))
        ∙ (ap (then_words (some a)) (shell_words-shell_quote (b ∷ argv))
            ∙ unfold_last a (b ∷ argv)))
  where
    unfold_last : (a : Bytes) (ws : List Bytes) → then_words (some a) (some ws) ≡ some (a ∷ ws)
    unfold_last a ws = unfold then_words in refl
