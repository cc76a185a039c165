-- ===== src/Agent.antt =====
-- internal/scriptedagent/scriptedagent.go: the vocabulary of scripts, and their parser. White space is
-- the ASCII part of Go's. `time.ParseDuration` is a parameter, since a pause has no other effect.
pub mod Run
pub mod Written
use shevet.Prelude.{
  ℕ, ◌+◌, Bool, not, ◌||◌, Option, none, some, List, [], ◌∷◌, ◌++◌, ◌==◌, if◌then◌else◌, ℤ, pos,
  negsuc, Bytes, codes, bytes_eq, cut_at, cut, trim_space,
}
use shevet.Prelude.Decimal.{atoi}
use shevet.Prelude.Scan.{scan_lines}

-- `step`, by its op.
pub data Step : Type 0 where
  print : Bytes → Step
  prompt : Bytes → Step
  await_line : Step
  read_raw : (count : ℕ) → (path : Bytes) → Step
  sleep : (nanoseconds : ℤ) → Step
  spam : (count : ℕ) → (text : Bytes) → Step
  exit : (code : ℤ) → Step

-- Why a line is no step.
pub data Reason : Type 0 where
  takes_no_argument : Bytes → Reason
  no_count : Reason
  negative_count : ℤ → Reason
  wants_arguments : Reason
  no_duration : Reason
  no_code : Reason
  unknown_op : Bytes → Reason

pub data Parsed (A : Type 0) : Type 0 where
  ok : A → Parsed A
  bad_line : ℕ → Reason → Parsed A
  line_too_long : Parsed A

pub data StepResult : Type 0 where
  step : Step → StepResult
  bad : Reason → StepResult

-- `strings.TrimLeft(s, " \t")`
unfoldable pub trim_blanks : Bytes → Bytes
trim_blanks [] = []
trim_blanks (c ∷ s) = if c == b' ' || c == b'\t' then trim_blanks s else c ∷ s

-- The argument of read-raw and of spam: a count that is not negative, and something behind it.
abbrev counted : (ℕ → Bytes → Step) → Option ℤ → Bytes × Bytes × Bool → StepResult
counted make none parts = bad no_count
counted make (some (negsuc n)) parts = bad (negative_count (negsuc n))
counted make (some (pos n)) (word, rest, found) =
    if not found || bytes_eq (trim_space rest) [] then bad wants_arguments else step (make n rest)

unfoldable pub parse_counted : (ℕ → Bytes → Step) → Bytes → StepResult
unfolding trim_blanks cut_at atoi trim_space bytes_eq
parse_counted make arg =
    let parts = cut (trim_blanks arg) (b' ' ∷ []) in counted make (atoi parts.0) parts

abbrev exit_step : Option ℤ → StepResult
exit_step none = bad no_code
exit_step (some code) = step (exit code)

abbrev sleep_step : Option ℤ → StepResult
sleep_step none = bad no_duration
sleep_step (some d) = step (sleep d)

module _ (parse_duration : Bytes → Option ℤ) where
  -- `parseStep`
  unfoldable pub parse_step : Bytes → Bytes → StepResult
  unfolding parse_counted bytes_eq trim_space atoi
  parse_step verb arg =
      if bytes_eq verb (codes "print")
      then step (print arg)
      else if bytes_eq verb (codes "prompt")
      then step (prompt arg)
      else if bytes_eq verb (codes "await-line")
      then (if bytes_eq (trim_space arg) [] then step await_line else bad (takes_no_argument arg))
      else if bytes_eq verb (codes "read-raw")
      then parse_counted read_raw arg
      else if bytes_eq verb (codes "sleep")
      then sleep_step (parse_duration (trim_space arg))
      else if bytes_eq verb (codes "spam")
      then parse_counted spam arg
      else if bytes_eq verb (codes "exit")
      then exit_step (atoi (trim_space arg))
      else bad (unknown_op verb)

  -- One line, without its leading blanks; an empty one and a comment are no step.
  unfoldable pub parse_words : Bytes → Option StepResult
  unfolding parse_step cut_at
  parse_words [] = none
  parse_words (c ∷ s) =
      let (verb, arg, found) = cut (c ∷ s) (b' ' ∷ []) in
      if c == b'#' then none else some (parse_step verb arg)

  abbrev continue :
      ℕ → List Step → Option StepResult → (List Step → Parsed (List Step)) → Parsed (List Step)
  continue line steps none next = next steps
  continue line steps (some (bad r)) next = bad_line line r
  continue line steps (some (step s)) next = next (steps ++ s ∷ [])

  -- The loop of `Parse`, at a line number, with the steps so far.
  unfoldable pub parse_loop : ℕ → List Step → List (Option Bytes) → Parsed (List Step)
  unfolding parse_words trim_blanks
  parse_loop line steps [] = ok steps
  parse_loop line steps (none ∷ ls) = line_too_long
  parse_loop line steps (some l ∷ ls) =
      continue (line + 1) steps (parse_words (trim_blanks l))
        (λ steps. parse_loop (line + 1) steps ls)

  -- `Parse`
  unfoldable pub parse : Bytes → Parsed (List Step)
  unfolding parse_loop scan_lines
  parse script = parse_loop 0 [] (scan_lines script)
