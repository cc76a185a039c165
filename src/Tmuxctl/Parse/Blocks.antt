-- ===== src/Tmuxctl/Parse/Blocks.antt =====
-- internal/tmuxctl/parse.go: reply blocks come back whole, whatever their lines are.
use shevet.Prelude.{
  Bool, true, false, Option, none, some, List, [], ◌∷◌, ◌++◌, Bytes, codes, bytes_eq, join,
}
use shevet.Tmuxctl.Parse.{Reply, Parser, Event, reply_end, feed}

-- The parser over some lines, with the results of each.
unfoldable pub feed_all : Parser → List Bytes → Parser × List (Option Event × Option Reply)
unfolding feed
feed_all p [] = (p, [])
feed_all p (line ∷ ls) =
    let (q, ev, done) = feed p line in let (r, out) = feed_all q ls in (r, (ev, done) ∷ out)

-- The lines that tmux writes around a reply: a time, the command's number, and flags.
abbrev pub begin_line : Bytes → Bytes → Bytes → Bytes
begin_line ts num flags = codes "%begin " ++ join (ts ∷ num ∷ flags ∷ []) (codes " ")

abbrev pub end_line : Bool → Bytes → Bytes → Bytes → Bytes
end_line true ts num flags = codes "%error " ++ join (ts ∷ num ∷ flags ∷ []) (codes " ")
end_line false ts num flags = codes "%end " ++ join (ts ∷ num ∷ flags ∷ []) (codes " ")

-- Whether a line closes the reply to a command.
abbrev pub closes : Bytes → Bytes → Bool
closes num line = elim (reply_end line) [ none ↦ false | some (n, _) ↦ bytes_eq n num ]

-- A parser in the middle of a reply.
abbrev pub inside : Bytes → List Bytes → Bool → Parser
inside num acc err = record { in_reply = true; reply_num = num; body = acc; is_err = err }

abbrev pub outside_of : Bytes → Bool → Parser
outside_of num err = record { in_reply = false; reply_num = num; body = []; is_err = err }

abbrev pub silent : Option Event × Option Reply
silent = (none, none)
