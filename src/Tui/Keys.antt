-- ===== src/Tui/Keys.antt =====
-- internal/tui/keys.go: the bytes of a key press. The key codes of the terminal UI's library and
-- `unicode.IsPrint` are parameters.
pub mod Codes
-- What the code takes from tea and unicode: the codes of the named keys, the first code that is no
-- rune, and which runes are printable.
use shevet.Prelude.{
  ℕ, ◌+◌, ◌-◌, ◌/◌, ◌%◌, Bool, not, ◌&&◌, ◌||◌, Option, none, some, [], ◌∷◌, ◌++◌, ltb, leb, ◌==◌,
  if◌then◌else◌, Bytes,
}

pub record KeyCodes : Type 0 where
  pub enter_code : ℕ
  pub tab_code : ℕ
  pub escape_code : ℕ
  pub backspace_code : ℕ
  pub up_code : ℕ
  pub down_code : ℕ
  pub right_code : ℕ
  pub left_code : ℕ
  pub home_code : ℕ
  pub end_code : ℕ
  pub insert_code : ℕ
  pub delete_code : ℕ
  pub pg_up_code : ℕ
  pub pg_down_code : ℕ
  pub extended : ℕ
  pub is_print : ℕ → Bool

-- `tea.KeyPressMsg`: its code and text, the two modifiers that are asked for, and its `String`.
pub record KeyPress : Type 0 where
  pub code : ℕ
  pub text : Bytes
  pub alt : Bool
  pub ctrl : Bool
  pub name : Bytes

-- What stands behind ESC [ in the sequence of a key.
abbrev csi : Bytes → Bytes
csi s = 0x1b ∷ b'[' ∷ s

-- `namedKey`: the first case that fits.
unfoldable pub named_key : KeyCodes → ℕ → Option Bytes
named_key t c =
    if c == t.enter_code
    then some (b'\r' ∷ [])
    else if c == t.tab_code
    then some (b'\t' ∷ [])
    else if c == t.escape_code
    then some (0x1b ∷ [])
    else if c == t.backspace_code
    then some (0x7f ∷ [])
    else if c == t.up_code
    then some (csi (b'A' ∷ []))
    else if c == t.down_code
    then some (csi (b'B' ∷ []))
    else if c == t.right_code
    then some (csi (b'C' ∷ []))
    else if c == t.left_code
    then some (csi (b'D' ∷ []))
    else if c == t.home_code
    then some (csi (b'H' ∷ []))
    else if c == t.end_code
    then some (csi (b'F' ∷ []))
    else if c == t.insert_code
    then some (csi (b'2' ∷ b'~' ∷ []))
    else if c == t.delete_code
    then some (csi (b'3' ∷ b'~' ∷ []))
    else if c == t.pg_up_code
    then some (csi (b'5' ∷ b'~' ∷ []))
    else if c == t.pg_down_code
    then some (csi (b'6' ∷ b'~' ∷ []))
    else none

-- `ctrlByte`
pub ctrl_byte : ℕ → Option ℕ
ctrl_byte c =
    if leb b'a' c && leb c b'z'
    then some (c - b'a' + 1)
    else if leb b'A' c && leb c b'Z'
    then some (c - b'A' + 1)
    else if c == b' ' || c == b'@'
    then some 0
    else if c == b'['
    then some 0x1b
    else if c == b'\\'
    then some 0x1c
    else if c == b']'
    then some 0x1d
    else if c == b'^'
    then some 0x1e
    else if c == b'_' || c == b'/'
    then some 0x1f
    else if c == b'?'
    then some 0x7f
    else none

-- Go's `string(r)` of a rune; what is no Unicode scalar value becomes U+FFFD.
abbrev tail_byte : ℕ → ℕ
tail_byte n = 0x80 + n % 64

pub utf8 : ℕ → Bytes
utf8 c =
    if ltb c 0x80
    then c ∷ []
    else if ltb c 0x800
    then (0xc0 + c / 64) ∷ tail_byte c ∷ []
    else if (leb 0xd800 c && leb c 0xdfff) || ltb 0x10ffff c
    then 0xef ∷ 0xbf ∷ 0xbd ∷ []
    else if ltb c 0x10000
    then (0xe0 + c / 4096) ∷ tail_byte (c / 64) ∷ tail_byte c ∷ []
    else (0xf0 + c / 262144) ∷ tail_byte (c / 4096) ∷ tail_byte (c / 64) ∷ tail_byte c ∷ []

-- Behind the named keys and the chords: the text of the key, or its rune.
pub printed : KeyCodes → KeyPress → Bytes → Bytes → Bytes
unfolding utf8
printed t k out (b ∷ text) = out ++ (b ∷ text)
printed t k out [] =
    if not (k.code == 0) && (ltb k.code t.extended && t.is_print k.code)
    then out ++ utf8 k.code
    else []

pub chord : KeyCodes → KeyPress → Bytes → Option ℕ → Bytes
unfolding printed
chord t k out (some b) = out ++ b ∷ []
chord t k out none = printed t k out k.text

pub unnamed : KeyCodes → KeyPress → Bytes → Option Bytes → Bytes
unfolding chord ctrl_byte
unnamed t k out (some seq) = out ++ seq
unnamed t k out none = chord t k out (if k.ctrl then ctrl_byte k.code else none)

-- `encodeKey`; nil is the empty list.
unfoldable pub encode_key : KeyCodes → KeyPress → Bytes
unfolding unnamed named_key
encode_key t k = unnamed t k (if k.alt then 0x1b ∷ [] else []) (named_key t k.code)

-- `isLeader`
unfoldable pub is_leader : KeyPress → Bool
is_leader k = k.ctrl && k.code == b'\\'
