-- ===== src/Agent/Run.antt =====
-- internal/scriptedagent/scriptedagent.go: running a script. `W` is what stands behind the output and
-- the files; a write takes all of its bytes or gives an error. Standard input is the bytes that come
-- on it until it closes.
pub mod Flood
use shevet.Prelude.{
  ℕ, suc, zero, ◌+◌, ◌-◌, not, Option, none, some, List, [], ◌∷◌, ◌++◌, ltb, leb, ◌==◌,
  if◌then◌else◌, length, take, drop, ℤ, pos, Bytes, codes,
}
use shevet.Prelude.Decimal.{decimal}
use shevet.Agent.{Step, print, prompt, await_line, read_raw, sleep, spam, exit}

-- What standard input is for the raw capture.
pub data Terminal : Type 0 where
  no_descriptor : Terminal
  no_terminal : Terminal
  raw_fails : Bytes → Terminal
  a_terminal : Terminal

pub record Outside (W : Type 0) : Type 0 where
  pub write : Bytes → W → Option Bytes × W
  pub write_file : Bytes → Bytes → W → Option Bytes × W
  pub terminal : Terminal

-- `bufio.Writer` has a buffer of this size.
abbrev pub buffer_size : ℕ
buffer_size = 4096

-- `ReadRawReady` and `ReadRawDone`, with the line breaks of raw mode.
abbrev pub read_raw_ready : Bytes
read_raw_ready = codes "shevet-read-raw-ready\r\n"

abbrev pub read_raw_done : Bytes
read_raw_done = codes "shevet-read-raw-done\r\n"

-- `in.ReadString('\n')`: what is left behind the line, or none at the end of the input.
unfoldable pub after_line : Bytes → Option Bytes
after_line [] = none
after_line (c ∷ s) = let later = after_line s in if c == b'\n' then some s else later

-- `io.ReadFull`: as many bytes, and what is left.
unfoldable pub read_full : ℕ → Bytes → Option (Bytes × Bytes)
read_full n input = if ltb (length input) n then none else some (take n input, drop n input)

-- The error of `io.ReadFull` on an input that is too short.
missing : Bytes → Bytes
missing [] = codes "EOF"
missing (b ∷ s) = codes "unexpected EOF"

module _ {W : Type 0} (o : Outside W) where
  -- One `Write` to the buffer: what fits is kept; else the buffer is filled and flushed, and the rest
  -- is kept if it fits, or written as it is. The buffer is empty after a flush.
  unfoldable pub keep_or_write : Bytes → W → Option Bytes × Bytes × W
  keep_or_write p w =
      let (err, w') = o.write p w in
      if leb (length p) buffer_size then (none, p, w) else (err, [], w')

  unfoldable pub after_flush : Option Bytes × W → Bytes → Option Bytes × Bytes × W
  unfolding keep_or_write
  after_flush (some e, w) p = (some e, [], w)
  after_flush (none, w) p = keep_or_write p w

  unfoldable pub buffer_write : Bytes → Bytes → W → Option Bytes × Bytes × W
  unfolding after_flush keep_or_write
  buffer_write [] p w = keep_or_write p w
  buffer_write (b ∷ buf) p w =
      let room = buffer_size - length (b ∷ buf) in
      if leb (length p) room
      then (none, (b ∷ buf) ++ p, w)
      else after_flush (o.write ((b ∷ buf) ++ take room p) w) (drop room p)

  -- `Flush`: nothing is written of an empty buffer.
  unfoldable pub flush : Bytes → W → Option Bytes × W
  flush [] w = (none, w)
  flush (b ∷ buf) w = o.write (b ∷ buf) w

  -- A line of `spam`: the text and its number.
  abbrev pub spam_line : Bytes → ℕ → Bytes
  spam_line text i = text ++ b' ' ∷ (decimal i ++ b'\n' ∷ [])

  -- What follows a write that went well.
  pub when_kept : Option Bytes × Bytes × W → (Bytes → W → Option Bytes × W) → Option Bytes × W
  when_kept (some e, buf, w) next = (some e, w)
  when_kept (none, buf, w) next = next buf w

  pub when_written : Bytes → Option Bytes × W → (W → Option Bytes × W) → Option Bytes × W
  when_written what (some e, w) next = (some (what ++ e), w)
  when_written what (none, w) next = next w

  abbrev nothing_left : W → Option Bytes × W
  nothing_left w = (none, w)

  -- The loop of `spam`, with as many lines to go, from line number `i`.
  unfoldable pub spam_from : ℕ → ℕ → Bytes → Bytes → W → Option Bytes × W
  unfolding buffer_write flush decimal when_kept when_written
  spam_from zero i text buf w = when_written (codes "flush: ") (flush buf w) nothing_left
  spam_from (suc n) i text buf w =
      when_kept (buffer_write buf (spam_line text i) w) (spam_from n (i + 1) text)

  -- `spam`
  unfoldable pub spam_lines : ℕ → Bytes → W → Option Bytes × W
  unfolding spam_from
  spam_lines count text w = spam_from count 1 text [] w

  -- `readRaw`, once the terminal is in raw mode, by what the input gives; the input that is left goes
  -- with the result.
  pub captured : ℕ → Bytes → Bytes → Option (Bytes × Bytes) → W → Option Bytes × Bytes × W
  unfolding when_written decimal missing
  captured count path input none w =
      (some (codes "read " ++ (decimal count ++ (codes " bytes: " ++ missing input))), [], w)
  captured count path input (some (data', rest)) w =
      let (err, w') =
        when_written (codes "write " ++ (path ++ codes ": ")) (o.write_file path data' w) (λ w.
          when_written (codes "write done marker: ") (o.write read_raw_done w) nothing_left) in
      (err, rest, w')

  pub ready : ℕ → Bytes → Bytes → Option Bytes × W → Option Bytes × Bytes × W
  unfolding captured read_full
  ready count path input (some e, w) = (some (codes "write ready marker: " ++ e), input, w)
  ready count path input (none, w) = captured count path input (read_full count input) w

  unfoldable pub capture : ℕ → Bytes → Bytes → Terminal → W → Option Bytes × Bytes × W
  unfolding ready
  capture count path input no_descriptor w =
      (some (codes "stdin has no file descriptor (not a terminal)"), input, w)
  capture count path input no_terminal w =
      (some (codes "stdin is not a terminal; raw capture needs a pty"), input, w)
  capture count path input (raw_fails e) w = (some (codes "enter raw mode: " ++ e), input, w)
  capture count path input a_terminal w = ready count path input (o.write read_raw_ready w)

-- How a run ends: with the script's code, or an error.
pub data Ending : Type 0 where
  exits : ℤ → Ending
  fails : Bytes → Ending

module _ {W : Type 0} (o : Outside W) where
  pub carry_on :
      Bytes → Option Bytes × Bytes × W → (Bytes → W → Ending × Bytes × W) → Ending × Bytes × W
  carry_on what (some e, input, w) next = (fails (what ++ e), input, w)
  carry_on what (none, input, w) next = next input w

  abbrev with_input : Bytes → Option Bytes × W → Option Bytes × Bytes × W
  with_input input (err, w) = (err, input, w)

  pub awaited : Option Bytes → W → Option Bytes × Bytes × W
  awaited none w = (some (codes "EOF"), [], w)
  awaited (some rest) w = (none, rest, w)

  -- `Script.Run`
  unfoldable pub run : List Step → Bytes → W → Ending × Bytes × W
  unfolding carry_on awaited after_line capture spam_lines
  run [] input w = (exits (pos 0), input, w)
  run (print text ∷ steps) input w =
      carry_on (codes "print: ") (with_input input (o.write (text ++ b'\n' ∷ []) w)) (run steps)
  run (prompt text ∷ steps) input w =
      carry_on (codes "prompt: ") (with_input input (o.write text w)) (run steps)
  run (await_line ∷ steps) input w =
      carry_on (codes "await-line: ") (awaited (after_line input) w) (run steps)
  run (read_raw count path ∷ steps) input w =
      carry_on (codes "read-raw: ") (capture o count path input o.terminal w) (run steps)
  run (sleep d ∷ steps) input w = run steps input w
  run (spam count text ∷ steps) input w =
      carry_on (codes "spam: ") (with_input input (spam_lines o count text w)) (run steps)
  run (exit code ∷ steps) input w = (exits code, input, w)
