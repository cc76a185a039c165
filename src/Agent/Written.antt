-- ===== src/Agent/Written.antt =====
-- internal/scriptedagent/scriptedagent.go: a script that is written down is parsed as what it says.
use mathlib.Core.Path.{subst}
use shevet.Prelude.{
  ℕ, suc, zero, ◌+◌, ◌≤◌, ◌≡◌, refl, sym, ap, ◌∙◌, ◌≢◌, Bool, true, Option, none, some, List, [],
  ◌∷◌, ◌++◌, map, append-nil, append_assoc, arith, replicate, All, ℤ, Bytes, codes, bytes_eq,
  strip_prefix, cut_at, cut, cut_found, trim_space, cut_at-join,
}
use shevet.Prelude.Decimal.{
  decimal, itoa, max_int, atoi, IsDigit, decimal-IsDigit, decimal-cons, atoi-decimal,
}
use shevet.Prelude.Maps.{bytes_ne}
use shevet.Prelude.Scan.{IsLine, unlines, scan_lines-unlines}
use shevet.Prelude.Words.{trim_space-Solid, decimal-Lacks, itoa-Solid, FitsInt, atoi-itoa}
use shevet.Agent.{
  Step, print, prompt, await_line, read_raw, sleep, spam, exit, StepResult, step, Parsed, ok,
  trim_blanks, counted, parse_counted, exit_step, sleep_step, parse_step, parse_words, continue,
  parse_loop, parse,
}

-- A line of a script: a step behind some blanks, a comment, or blanks.
pub data Line : Type 0 where
  does : (indent : ℕ) → Step → Line
  says : (indent : ℕ) → Bytes → Line
  gap : ℕ → Line

module _ (show_duration : ℤ → Bytes) where
  -- A step in the vocabulary's words.
  abbrev pub show : Step → Bytes
  show (print text) = codes "print " ++ text
  show (prompt text) = codes "prompt " ++ text
  show await_line = codes "await-line"
  show (read_raw n path) = codes "read-raw " ++ (decimal n ++ b' ' ∷ path)
  show (sleep d) = codes "sleep " ++ show_duration d
  show (spam n text) = codes "spam " ++ (decimal n ++ b' ' ∷ text)
  show (exit code) = codes "exit " ++ itoa code

  abbrev pub show_line : Line → Bytes
  show_line (does n s) = replicate n b' ' ++ show s
  show_line (says n text) = replicate n b' ' ++ b'#' ∷ text
  show_line (gap n) = replicate n b' '

abbrev pub steps_of : List Line → List Step
steps_of [] = []
steps_of (does n s ∷ ls) = s ∷ steps_of ls
steps_of (says n text ∷ ls) = steps_of ls
steps_of (gap n ∷ ls) = steps_of ls

module _ (parse_duration : Bytes → Option ℤ) (show_duration : ℤ → Bytes) where
  -- A step that can be written: its numbers fit an int, what a count stands in front of is not
  -- blank, and a duration is read back.
  abbrev pub Writable : Step → Type 0
  Writable (print text) = Unit {0}
  Writable (prompt text) = Unit
  Writable await_line = Unit
  Writable (read_raw n path) = (n ≤ max_int) × (trim_space path ≢ [])
  Writable (sleep d) = parse_duration (trim_space (show_duration d)) ≡ some d
  Writable (spam n text) = (n ≤ max_int) × (trim_space text ≢ [])
  Writable (exit code) = FitsInt code

  abbrev pub WritableLine : Line → Type 0
  WritableLine (does n s) = Writable s
  WritableLine (says n text) = Unit
  WritableLine (gap n) = Unit

  trim_blanks-digits : (n : ℕ) (s : Bytes) → trim_blanks (decimal n ++ s) ≡ decimal n ++ s
  trim_blanks-digits n s =
      let (c, t, e) = decimal-cons n in
      subst (λ d. trim_blanks (d ++ s) ≡ d ++ s) (sym e)
        (first c t (subst (All IsDigit) e (decimal-IsDigit n)).0)
    where
      first : (c : ℕ) (t : Bytes) → IsDigit c → trim_blanks (c ∷ (t ++ s)) ≡ c ∷ (t ++ s)
      first c t d = unfold trim_blanks in ground arith

  -- A count and what stands behind it.
  parse_counted-shown :
      (make : ℕ → Bytes → Step) (n : ℕ) (rest : Bytes)
      → n ≤ max_int
      → trim_space rest ≢ []
      → parse_counted make (decimal n ++ b' ' ∷ rest) ≡ step (make n rest)
  unfolding parse_counted
  parse_counted-shown make n rest h k =
      ap (λ s. of_parts (cut s (b' ' ∷ []))) (trim_blanks-digits n (b' ' ∷ rest))
      ∙ (ap (λ o. of_parts (cut_found (decimal n ++ b' ' ∷ rest) o))
            (cut_at-join b' ' [] (decimal n) rest (decimal-Lacks n b' ' (omega arith)))
          ∙ (ap (λ z. counted make z (decimal n, rest, true)) (atoi-decimal n h)
              ∙ rw (bytes_ne (trim_space rest) [] k) refl))
    where
      of_parts : Bytes × Bytes × Bool → StepResult
      of_parts parts = counted make (atoi parts.0) parts

  parse_words-show :
      (s : Step) → Writable s → parse_words parse_duration (show show_duration s) ≡ some (step s)
  unfolding parse_words parse_step cut_at strip_prefix bytes_eq
  parse_words-show (print text) h = refl
  parse_words-show (prompt text) h = refl
  parse_words-show await_line h = refl
  parse_words-show (read_raw n path) h = ap some (parse_counted-shown read_raw n path h.0 h.1)
  parse_words-show (sleep d) h = ap (λ o. some (sleep_step o)) h
  parse_words-show (spam n text) h = ap some (parse_counted-shown spam n text h.0 h.1)
  parse_words-show (exit code) h =
      ap (λ s. some (exit_step (atoi s))) (trim_space-Solid (itoa code) (itoa-Solid code))
      ∙ ap (λ o. some (exit_step o)) (atoi-itoa code h)

  trim_blanks-indent : (n : ℕ) (s : Bytes) → trim_blanks (replicate n b' ' ++ s) ≡ trim_blanks s
  unfolding trim_blanks
  trim_blanks-indent zero s = refl
  trim_blanks-indent (suc n) s = trim_blanks-indent n s

  trim_blanks-gap : (n : ℕ) → trim_blanks (replicate n b' ') ≡ []
  unfolding trim_blanks
  trim_blanks-gap zero = refl
  trim_blanks-gap (suc n) = trim_blanks-gap n

  trim_blanks-show : (s : Step) → trim_blanks (show show_duration s) ≡ show show_duration s
  unfolding trim_blanks
  trim_blanks-show (print text) = refl
  trim_blanks-show (prompt text) = refl
  trim_blanks-show await_line = refl
  trim_blanks-show (read_raw n path) = refl
  trim_blanks-show (sleep d) = refl
  trim_blanks-show (spam n text) = refl
  trim_blanks-show (exit code) = refl

  abbrev words_of : Line → Option StepResult
  words_of (does n s) = some (step s)
  words_of (says n text) = none
  words_of (gap n) = none

  comment_words : (text : Bytes) → parse_words parse_duration (b'#' ∷ text) ≡ none
  unfolding parse_words
  comment_words text = refl

  trim_blanks-comment : (text : Bytes) → trim_blanks (b'#' ∷ text) ≡ b'#' ∷ text
  unfolding trim_blanks
  trim_blanks-comment text = refl

  no_words : parse_words parse_duration [] ≡ none
  unfolding parse_words
  no_words = refl

  parse_words-line :
      (l : Line)
      → WritableLine l
      → parse_words parse_duration (trim_blanks (show_line show_duration l)) ≡ words_of l
  parse_words-line (does n s) h =
      ap (parse_words parse_duration)
        (trim_blanks-indent n (show show_duration s) ∙ trim_blanks-show s)
      ∙ parse_words-show s h
  parse_words-line (says n text) h =
      ap (parse_words parse_duration)
        (trim_blanks-indent n (b'#' ∷ text) ∙ trim_blanks-comment text)
      ∙ comment_words text
  parse_words-line (gap n) h = ap (parse_words parse_duration) (trim_blanks-gap n) ∙ no_words

  abbrev lines : List Line → List Bytes
  lines ls = map (show_line show_duration) ls

  abbrev next_lines : ℕ → List Line → List Step → Parsed (List Step)
  next_lines line ls steps = parse_loop parse_duration line steps (map some (lines ls))

  at_line :
      (line : ℕ) (steps : List Step) (l : Line) (ls : List Line)
      → WritableLine l
      → next_lines line (l ∷ ls) steps
        ≡ continue parse_duration (line + 1) steps (words_of l) (next_lines (line + 1) ls)
  unfolding parse_loop
  at_line line steps l ls h =
      ap (λ o. continue parse_duration (line + 1) steps o (next_lines (line + 1) ls))
        (parse_words-line l h)

  parse_loop-lines :
      (line : ℕ) (steps : List Step) (ls : List Line)
      → All WritableLine ls
      → parse_loop parse_duration line steps (map some (lines ls)) ≡ ok (steps ++ steps_of ls)
  unfolding parse_loop
  parse_loop-lines line steps [] h = ap ok (sym (append-nil steps))
  parse_loop-lines line steps (does n s ∷ ls) h =
      at_line line steps (does n s) ls h.0
      ∙ (parse_loop-lines (line + 1) (steps ++ s ∷ []) ls h.1
          ∙ ap ok (append_assoc steps (s ∷ []) (steps_of ls)))
  parse_loop-lines line steps (says n text ∷ ls) h =
      at_line line steps (says n text) ls h.0 ∙ parse_loop-lines (line + 1) steps ls h.1
  parse_loop-lines line steps (gap n ∷ ls) h =
      at_line line steps (gap n) ls h.0 ∙ parse_loop-lines (line + 1) steps ls h.1

  -- A script of steps that can be written, each behind some blanks, with comments and blank lines
  -- between them, whose lines fit the scanner, is parsed as these steps in order.
  pub parse-lines :
      (ls : List Line)
      → All WritableLine ls
      → All IsLine (lines ls)
      → parse parse_duration (unlines (lines ls)) ≡ ok (steps_of ls)
  unfolding parse
  parse-lines ls h fit =
      ap (parse_loop parse_duration 0 []) (scan_lines-unlines (lines ls) fit)
      ∙ parse_loop-lines 0 [] ls h
