-- ===== src/Tmuxctl/Parse.antt =====
-- internal/tmuxctl/parse.go and events.go: the lines of the control-mode stream become events and
-- replies. A `Parser` is the state of the source's `parser`, and `feed` returns it with both
-- results.

pub mod Escape
pub mod Blocks
pub mod Output
use shevet.Prelude.{
  ℕ, suc, zero, ◌+◌, ◌-◌, ◌*◌, ◌%◌, Bool, true, false, ◌&&◌, ◌||◌, Option, none, some, List, [],
  ◌∷◌, ◌++◌, leb, ◌==◌, if◌then◌else◌, length, get_or, Bytes, codes, bytes_eq, cut_at, cut,
  trim_space, fields,
}

pub record Reply : Type 0 where
  pub lines : List Bytes
  pub is_err : Bool
  pub seq : ℕ

pub record Parser : Type 0 where
  pub in_reply : Bool
  pub reply_num : Bytes
  pub body : List Bytes
  pub is_err : Bool

-- `Event`: a constructor for each concrete type.
pub data Event : Type 0 where
  output : (pane data' : Bytes) → (seq : ℕ) → Event
  pause : (pane : Bytes) → Event
  continue : (pane : Bytes) → Event
  topology : (notification : Bytes) → Event
  exit : (reason : Bytes) → Event
  unknown : (line : Bytes) → Event

-- `topologyNotifications`
abbrev pub topology_notifications : List Bytes
topology_notifications =
    codes "%window-add"
    ∷ codes "%window-close"
    ∷ codes "%unlinked-window-close"
    ∷ codes "%window-renamed"
    ∷ codes "%layout-change"
    ∷ codes "%window-pane-changed"
    ∷ codes "%session-window-changed"
    ∷ []

abbrev pub is_one_of : List Bytes → Bytes → Bool
is_one_of [] s = false
is_one_of (w ∷ ws) s = bytes_eq w s || is_one_of ws s

abbrev pub is_octal : ℕ → Bool
is_octal c = leb b'0' c && leb c b'7'

-- The inner loop of `decodeOutput`: at most `n` further octal digits, in a byte.
unfoldable pub octal : ℕ → ℕ → Bytes → ℕ × Bytes
octal zero b s = (b, s)
octal (suc n) b [] = (b, [])
octal (suc n) b (c ∷ s) =
    let more = octal n ((b * 8) % 256 + (c - b'0')) s in if is_octal c then more else (b, c ∷ s)

-- What the escape of a byte that is no octal digit stands for.
unfoldable pub c_escape : ℕ → Bytes
c_escape c =
    if c == 0x5c
    then 0x5c ∷ []
    else if c == b'a'
    then 7 ∷ []
    else if c == b'b'
    then 8 ∷ []
    else if c == b'f'
    then 12 ∷ []
    else if c == b'n'
    then 10 ∷ []
    else if c == b'r'
    then 13 ∷ []
    else if c == b't'
    then 9 ∷ []
    else if c == b'v'
    then 11 ∷ []
    else 0x5c ∷ c ∷ []

-- The bytes of an escape, and what is left behind it; the backslash is read already.
unfoldable pub escape : ℕ → Bytes → Bytes × Bytes
unfolding octal c_escape
escape c s =
    let (b, rest) = octal 2 (c - b'0') s in if is_octal c then (b ∷ [], rest) else (c_escape c, s)

-- The loop of `decodeOutput`; a backslash at the end is kept.
unfoldable pub decode_loop : ℕ → Bytes → Bytes
unfolding escape
decode_loop fuel [] = []
decode_loop zero (c ∷ s) = []
decode_loop (suc fuel) (c ∷ []) = c ∷ []
decode_loop (suc fuel) (c ∷ d ∷ s) =
    let (bytes, rest) = escape d s in
    let plain = c ∷ decode_loop fuel (d ∷ s) in
    let escaped = bytes ++ decode_loop fuel rest in if c == 0x5c then escaped else plain

-- `decodeOutput`: a round takes a byte at least, so their number is fuel enough.
unfoldable pub decode_output : Bytes → Bytes
unfolding decode_loop
decode_output s = decode_loop (length s) s

-- `field`
unfoldable pub field : Bytes → ℕ → Bytes
unfolding fields
field s i = get_or (fields s) i []

-- `replyEnd`: the command number and whether it is an error, of a line that closes a reply.
unfoldable pub reply_end : Bytes → Option (Bytes × Bool)
unfolding cut_at field
reply_end line =
    let (word, rest, _) = cut line (codes " ") in
    if bytes_eq word (codes "%end") || bytes_eq word (codes "%error")
    then some (field rest 1, bytes_eq word (codes "%error"))
    else none

unfoldable pub value_of : Bytes → Option (Bytes × Bytes) → Bytes × Bytes
value_of pane none = (pane, [])
value_of pane (some (_, value)) = (pane, value)

unfoldable pub extended_tail : Bytes → Option (Bytes × Bytes) → Bytes × Bytes
unfolding value_of cut_at
extended_tail rest none = (rest, [])
extended_tail rest (some (pane, tail)) = value_of pane (cut_at (codes " : ") tail)

-- `splitExtendedOutput`
unfoldable pub split_extended_output : Bytes → Bytes × Bytes
unfolding cut_at extended_tail
split_extended_output rest = extended_tail rest (cut_at (codes " ") rest)

-- The `switch` of `feed` on a notification.
unfoldable pub notification : Bytes → Bytes → Bytes → Event
unfolding cut_at decode_output split_extended_output trim_space bytes_eq
notification line word rest =
    let (pane, data', _) = cut rest (codes " ") in
    let (ext_pane, ext_data) = split_extended_output rest in
    if bytes_eq word (codes "%output")
    then output pane (decode_output data') 0
    else if bytes_eq word (codes "%extended-output")
    then output ext_pane (decode_output ext_data) 0
    else if bytes_eq word (codes "%pause")
    then pause (trim_space rest)
    else if bytes_eq word (codes "%continue")
    then continue (trim_space rest)
    else if bytes_eq word (codes "%exit")
    then exit rest
    else if is_one_of topology_notifications word
    then topology line
    else unknown line

unfoldable pub close_reply : Parser → Bool → Parser × Option Event × Option Reply
close_reply p err = (
  record p { in_reply = false; body = []; is_err = false },
  none,
  some (record { lines = p.body; is_err = err; seq = 0 }),
)

unfoldable pub keep_line : Parser → Bytes → Parser × Option Event × Option Reply
keep_line p line = (record p { body = p.body ++ line ∷ [] }, none, none)

-- In a reply, by what `replyEnd` says of the line.
unfoldable pub feed_found :
    Parser → Bytes → Option (Bytes × Bool) → Parser × Option Event × Option Reply
unfolding close_reply keep_line bytes_eq
feed_found p line none = keep_line p line
feed_found p line (some (num, err)) =
    if bytes_eq num p.reply_num then close_reply p err else keep_line p line

unfoldable pub feed_reply : Parser → Bytes → Parser × Option Event × Option Reply
unfolding reply_end feed_found
feed_reply p line = feed_found p line (reply_end line)

unfoldable pub feed_idle : Parser → Bytes → Parser × Option Event × Option Reply
unfolding cut_at field notification bytes_eq
feed_idle p line =
    let (word, rest, _) = cut line (codes " ") in
    if bytes_eq word (codes "%begin")
    then (record p { in_reply = true; reply_num = field rest 1 }, none, none)
    else (p, some (notification line word rest), none)

-- `feed`
unfoldable pub feed : Parser → Bytes → Parser × Option Event × Option Reply
unfolding feed_reply feed_idle
feed p line = if p.in_reply then feed_reply p line else feed_idle p line

abbrev pub new_parser : Parser
new_parser = record { in_reply = false; reply_num = []; body = []; is_err = false }
