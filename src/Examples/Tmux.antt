-- ===== src/Examples/Tmux.antt =====
-- internal/tmuxctl at concrete inputs.
use shevet.Prelude.{
  join, All, ℕ, ◌≡◌, refl, true, false, none, some, List, [], ◌∷◌, ◌++◌, arith, Bytes, codes,
}
use shevet.Tmuxctl.Parse.{
  Reply, Parser, Event, output, new_parser, decode_output, feed, decode_loop, escape, octal,
  c_escape, is_octal,
}
use shevet.Tmuxctl.Parse.Escape.{
  Encodes, done, plain, letter, digits, backslash, newline, decode_output-Encodes,
}
use shevet.Tmuxctl.Parse.Output.{IsField, feed-output}
use shevet.Tmuxctl.Quote.{quote_arg, contains_any, replace_quotes}
use shevet.Tmuxctl.Channel.{new_client}
use shevet.Tmuxctl.Channel.Matching.{
  Call, send, fail_to_send, block, run, tmux_run, new_tmux, Matches, run-new_client-Matches,
}

-- A red letter, a backslash and a line break, in three spellings.
abbrev red : Bytes
red = 27 ∷ codes "[31m" ++ (0x5c ∷ 10 ∷ [])

abbrev red_text : Bytes
red_text = codes "\\033[31m" ++ (0x5c ∷ 0x5c ∷ 0x5c ∷ b'n' ∷ [])

red-Encodes : Encodes red red_text
red-Encodes = digits {x = 0} {y = 3} {z = 3} (ground arith) (ground arith) (ground arith) (
    plain (ground arith) (
      plain (ground arith)
        (plain (ground arith) (plain (ground arith) (letter backslash (letter newline done))))))

decode_output-Encodes_example : decode_output red_text ≡ red
decode_output-Encodes_example = decode_output-Encodes red red_text red-Encodes

abbrev listing : List Bytes
listing = codes "%3 80 24" ∷ codes "%end 5 6 1" ∷ codes "%begin 5 8 1" ∷ []

feed-output_example :
    (feed new_parser (codes "%output " ++ (codes "%2" ++ (codes " " ++ red_text)))
      ≡ (new_parser, some (output (codes "%2") red 0), none))
    × (feed new_parser (
          codes "%extended-output "
          ++ (codes "%2" ++ (codes " " ++ (codes "5 someflag" ++ (codes " : " ++ red_text)))))
        ≡ (new_parser, some (output (codes "%2") red 0), none))
feed-output_example =
    unfold join in
    feed-output new_parser (codes "%2") (codes "5") (codes "someflag" ∷ []) red red_text refl
      (ground arith) fields red-Encodes
  where
    fields : All IsField (codes "5" ∷ codes "someflag" ∷ [])
    fields = (
      (ground arith, λ e. absurd (ground arith)),
      ((ground arith, λ e. absurd (ground arith)), tt),
    )

-- A directory of that name is left for tmux to expand.
tilde_unquoted : quote_arg (codes "~") ≡ codes "~"
unfolding quote_arg contains_any
tilde_unquoted = refl

-- The guard, a sequence of two whose first command fails, one that is not written, and one that
-- is answered.
abbrev calls : List Call
calls =
    send 0 (1 ∷ [])
    ∷ block (record { lines = []; is_err = false; seq = 1 })
    ∷ fail_to_send 2 []
    ∷ send 3 []
    ∷ block (record { lines = codes "no pane" ∷ []; is_err = true; seq = 2 })
    ∷ block (record { lines = codes "yes" ∷ []; is_err = false; seq = 3 })
    ∷ []

run-new_client-Matches_example : Matches (run calls new_client) (tmux_run calls new_tmux)
run-new_client-Matches_example = run-new_client-Matches calls

abbrev three : ℕ
three = 3

abbrev two : ℕ
two = 2

quotes : quote_arg (codes "%3") ≡ 39 ∷ (codes "%3" ++ 39 ∷ [])
unfolding quote_arg contains_any replace_quotes
quotes = refl
