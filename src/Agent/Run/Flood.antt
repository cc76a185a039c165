-- ===== src/Agent/Run/Flood.antt =====
-- internal/scriptedagent/scriptedagent.go: what a script writes, over its buffered writer.
use mathlib.Core.Path.{subst}
use shevet.Prelude.{
  ℕ, suc, zero, ◌+◌, ◌-◌, ◌≡◌, refl, sym, ap, ◌∙◌, Option, none, some, List, [], ◌∷◌, ◌++◌,
  append-nil, append_assoc, arith, leb, if_cases, length, take, drop, pos, Bytes, codes,
}
use shevet.Prelude.Decimal.{decimal}
use shevet.Agent.{Step, print, prompt, await_line, read_raw, sleep, spam, exit}
use shevet.Agent.Run.{
  Outside, no_terminal, buffer_size, after_line, keep_or_write, after_flush, buffer_write, flush,
  spam_line, when_kept, when_written, nothing_left, spam_from, spam_lines, Ending, exits, fails,
  carry_on, with_input, awaited, capture, run,
}

-- An output that takes everything, without a terminal behind the input.
abbrev pub pipe : Outside Bytes
pipe = record {
  write = λ p w. (none, w ++ p);
  write_file = λ path data' w. (none, w);
  terminal = no_terminal;
}

-- The buffer's write went well, and the output with the buffer behind it is this.
Kept : Bytes → Option Bytes × Bytes × Bytes → Type 0
Kept all r = (r.0 ≡ none) × (r.2 ++ r.1 ≡ all)

keep_or_write-Kept : (p w : Bytes) → Kept (w ++ p) (keep_or_write pipe p w)
unfolding keep_or_write Kept
keep_or_write-Kept p w =
    if_cases (λ r. Kept (w ++ p) r) (leb (length p) buffer_size) (none, p, w) (none, [], w ++ p)
      (λ _. (refl, refl)) (λ _. (refl, append-nil (w ++ p)))

take-drop : (n : ℕ) (p : Bytes) → take n p ++ drop n p ≡ p
take-drop zero p = refl
take-drop (suc n) [] = refl
take-drop (suc n) (c ∷ p) = ap (λ s. c ∷ s) (take-drop n p)

buffer_write-Kept : (buf p w : Bytes) → Kept (w ++ (buf ++ p)) (buffer_write pipe buf p w)
unfolding buffer_write after_flush Kept
buffer_write-Kept [] p w = keep_or_write-Kept p w
buffer_write-Kept (b ∷ buf) p w =
    let room = buffer_size - length (b ∷ buf) in
    let full = w ++ ((b ∷ buf) ++ take room p) in
    if_cases (λ r. Kept (w ++ ((b ∷ buf) ++ p)) r) (leb (length p) room) (none, (b ∷ buf) ++ p, w)
      (keep_or_write pipe (drop room p) full) (λ _. (refl, refl))
      (λ _.
        subst (λ all. Kept all (keep_or_write pipe (drop room p) full)) (joined room full refl)
          (keep_or_write-Kept (drop room p) full))
  where
    joined :
        (room : ℕ) (full : Bytes)
        → full ≡ w ++ ((b ∷ buf) ++ take room p)
        → full ++ drop room p ≡ w ++ ((b ∷ buf) ++ p)
    joined room full e =
        ap (λ x. x ++ drop room p) e
        ∙ (append_assoc w ((b ∷ buf) ++ take room p) (drop room p)
            ∙ ap (λ x. w ++ x)
                (append_assoc (b ∷ buf) (take room p) (drop room p)
                  ∙ ap (λ x. (b ∷ buf) ++ x) (take-drop room p)))

-- The lines of a flood, numbered from `i`.
pub flood : ℕ → ℕ → Bytes → Bytes
unfolding decimal
flood zero i text = []
flood (suc n) i text = (text ++ b' ' ∷ (decimal i ++ b'\n' ∷ [])) ++ flood n (i + 1) text

flush-pipe : (buf w : Bytes) → flush pipe buf w ≡ (none, w ++ buf)
unfolding flush
flush-pipe [] w = ap (λ x. (none, x)) (sym (append-nil w))
flush-pipe (b ∷ buf) w = refl

when_kept-Kept :
    (all : Bytes) (r : Option Bytes × Bytes × Bytes) (next : Bytes → Bytes → Option Bytes × Bytes)
    (more : Bytes)
    → Kept all r
    → ((buf w : Bytes) → next buf w ≡ (none, (w ++ buf) ++ more))
    → when_kept pipe r next ≡ (none, all ++ more)
unfolding when_kept Kept
when_kept-Kept all (none, buf, w) next more (e, k) h = h buf w ∙ ap (λ x. (none, x ++ more)) k
when_kept-Kept all (some x, buf, w) next more (e, k) h = absurd (ground arith)

spam_from-flood :
    (n i : ℕ) (text buf w : Bytes)
    → spam_from pipe n i text buf w ≡ (none, (w ++ buf) ++ flood n i text)
unfolding spam_from flood
spam_from-flood zero i text buf w =
    ap (λ r. when_written pipe (codes "flush: ") r (nothing_left pipe)) (flush-pipe buf w)
    ∙ (unfold when_written in ap (λ x. (none, x)) (sym (append-nil (w ++ buf))))
spam_from-flood (suc n) i text buf w =
    let line = spam_line pipe text i in
    when_kept-Kept (w ++ (buf ++ line)) (buffer_write pipe buf line w)
      (spam_from pipe n (i + 1) text) (flood n (i + 1) text) (buffer_write-Kept buf line w)
      (spam_from-flood n (i + 1) text)
    ∙ ap (λ x. (none, x)) (reassoc w buf line (flood n (i + 1) text))
  where
    reassoc : (w b l f : Bytes) → (w ++ (b ++ l)) ++ f ≡ (w ++ b) ++ (l ++ f)
    reassoc w b l f =
        append_assoc w (b ++ l) f
        ∙ (ap (λ x. w ++ x) (append_assoc b l f) ∙ sym (append_assoc w b (l ++ f)))

spam_lines-flood :
    (count : ℕ) (text w : Bytes) → spam_lines pipe count text w ≡ (none, w ++ flood count 1 text)
unfolding spam_lines
spam_lines-flood count text w =
    spam_from-flood count 1 text [] w ∙ ap (λ x. (none, x ++ flood count 1 text)) (append-nil w)

abbrev prepend : Bytes → Ending × Bytes → Ending × Bytes
prepend s (e, out) = (e, s ++ out)

abbrev play_line : Option Bytes → (Bytes → Ending × Bytes) → Ending × Bytes
play_line none next = (fails (codes "await-line: EOF"), [])
play_line (some rest) next = next rest

-- What a script does on input that is no terminal, without a buffer: how it ends, and its output.
pub play : List Step → Bytes → Ending × Bytes
unfolding flood
play [] input = (exits (pos 0), [])
play (print text ∷ steps) input = prepend (text ++ b'\n' ∷ []) (play steps input)
play (prompt text ∷ steps) input = prepend text (play steps input)
play (await_line ∷ steps) input = play_line (after_line input) (play steps)
play (read_raw count path ∷ steps) input =
    (fails (codes "read-raw: stdin is not a terminal; raw capture needs a pty"), [])
play (sleep d ∷ steps) input = play steps input
play (spam count text ∷ steps) input = prepend (flood count 1 text) (play steps input)
play (exit code ∷ steps) input = (exits code, [])

-- The run ends as the play does, with its output behind what was there.
abbrev pub Plays : Bytes → Ending × Bytes → Ending × Bytes × Bytes → Type 0
Plays w p r = (r.0 ≡ p.0) × (r.2 ≡ w ++ p.1)

Plays-prepend :
    (w s : Bytes) (p : Ending × Bytes) (r : Ending × Bytes × Bytes)
    → Plays (w ++ s) p r
    → Plays w (prepend s p) r
Plays-prepend w s p r (e, out) = (e, out ∙ append_assoc w s p.1)

awaited-Plays :
    (o : Option Bytes) (w : Bytes) (next : Bytes → Ending × Bytes)
    (onward : Bytes → Bytes → Ending × Bytes × Bytes)
    → ((rest : Bytes) → Plays w (next rest) (onward rest w))
    → Plays w (play_line o next) (carry_on pipe (codes "await-line: ") (awaited pipe o w) onward)
unfolding carry_on awaited
awaited-Plays none w next onward h = (refl, sym (append-nil w))
awaited-Plays (some rest) w next onward h = h rest

-- With output that takes everything, and input that is no terminal, a script ends as it says, and
-- its output is what its steps up to there say: the texts, with a line break for those that are
-- printed, and for a flood its lines in order with their numbers from 1, over the writer's buffer.
pub run-Plays :
    (steps : List Step) (input w : Bytes) → Plays w (play steps input) (run pipe steps input w)
unfolding run play carry_on
run-Plays [] input w = (refl, sym (append-nil w))
run-Plays (print text ∷ steps) input w =
    Plays-prepend w (text ++ b'\n' ∷ []) (play steps input)
      (run pipe steps input (w ++ (text ++ b'\n' ∷ [])))
      (run-Plays steps input (w ++ (text ++ b'\n' ∷ [])))
run-Plays (prompt text ∷ steps) input w =
    Plays-prepend w text (play steps input) (run pipe steps input (w ++ text))
      (run-Plays steps input (w ++ text))
run-Plays (await_line ∷ steps) input w =
    awaited-Plays (after_line input) w (play steps) (run pipe steps)
      (λ rest. run-Plays steps rest w)
run-Plays (read_raw count path ∷ steps) input w = unfold capture in (refl, sym (append-nil w))
run-Plays (sleep d ∷ steps) input w = run-Plays steps input w
run-Plays (spam count text ∷ steps) input w =
    let lines = flood count 1 text in
    let p = play steps input in
    subst
      (λ r.
        Plays w (prepend lines p)
          (carry_on pipe (codes "spam: ") (with_input pipe input r) (run pipe steps)))
      (sym (spam_lines-flood count text w))
      (Plays-prepend w lines p (run pipe steps input (w ++ lines))
        (run-Plays steps input (w ++ lines)))
run-Plays (exit code ∷ steps) input w = (refl, sym (append-nil w))
