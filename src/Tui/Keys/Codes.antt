-- ===== src/Tui/Keys/Codes.antt =====
-- internal/tui/keys.go: Alt, the Ctrl chords, and reading a named key back.
use mathlib.Core.Path.{subst}
use shevet.Prelude.{
  ℕ, ◌%◌, ◌≤◌, ◌≡◌, refl, sym, ap, ◌∙◌, ◌≢◌, inl, inr, true, false, not, ◌&&◌, Option, none, some,
  [], ◌∷◌, ◌++◌, arith, ltb, ◌==◌, if◌then◌else◌, Bool-cases, Bytes,
}
use shevet.Inject.{is_control}
use shevet.Tui.Keys.{
  KeyCodes, KeyPress, named_key, ctrl_byte, utf8, printed, chord, unnamed, encode_key,
}

-- What Alt puts before the bytes of a key that has some.
abbrev pub prefixed : Bytes → Bytes
prefixed [] = []
prefixed (b ∷ s) = 0x1b ∷ b ∷ s

prefixed-utf8 : (c : ℕ) → prefixed (utf8 c) ≡ 0x1b ∷ utf8 c
unfolding utf8
prefixed-utf8 c = ground arith

printed-alt :
    (t : KeyCodes) (k : KeyPress) (text : Bytes)
    → printed t k (0x1b ∷ []) text ≡ prefixed (printed t k [] text)
unfolding printed
printed-alt t k (b ∷ text) = refl
printed-alt t k [] =
    elim (Bool-cases (not (k.code == 0) && (ltb k.code t.extended && t.is_print k.code))) [
      | inl shown ↦ rw shown (sym (prefixed-utf8 k.code))
      | inr hidden ↦ rw hidden refl
    ]

chord-alt :
    (t : KeyCodes) (k : KeyPress) (o : Option ℕ)
    → chord t k (0x1b ∷ []) o ≡ prefixed (chord t k [] o)
unfolding chord
chord-alt t k (some b) = refl
chord-alt t k none = printed-alt t k k.text

HasBytes : Option Bytes → Type 0
HasBytes none = Unit
HasBytes (some s) = s ≢ []

named_key-HasBytes : (t : KeyCodes) (c : ℕ) → HasBytes (named_key t c)
unfolding named_key HasBytes
named_key-HasBytes t c = ground arith

unnamed-alt :
    (t : KeyCodes) (k : KeyPress) (o : Option Bytes)
    → HasBytes o
    → unnamed t k (0x1b ∷ []) o ≡ prefixed (unnamed t k [] o)
unfolding unnamed HasBytes
unnamed-alt t k (some []) h = absurd (h refl)
unnamed-alt t k (some (b ∷ s)) h = refl
unnamed-alt t k none h = chord-alt t k (if k.ctrl then ctrl_byte k.code else none)

-- A key held with Alt has the bytes that it has alone with ESC before them, and none if it has none
-- alone.
pub encode_key-alt :
    (t : KeyCodes) (k : KeyPress)
    → encode_key t (record k { alt = true }) ≡ prefixed (encode_key t (record k { alt = false }))
unfolding encode_key
encode_key-alt t k = unnamed-alt t k (named_key t k.code) (named_key-HasBytes t k.code)

-- A Ctrl chord's byte is a control byte for the injection, and of a code from @ to z it is the code
-- modulo 32.
pub ctrl_byte-is_control :
    (c b : ℕ) → ctrl_byte c ≡ some b → (is_control b ≡ true) × (b'@' ≤ c → b ≡ c % 32)
unfolding ctrl_byte is_control
ctrl_byte-is_control c b h = ground arith

-- What a terminal's reader makes of one control byte, of ESC [ and a letter, and of ESC [ and a
-- digit with its tilde: the key's code.
single_code : KeyCodes → ℕ → Option ℕ
single_code t b =
    if b == 0x0d
    then some t.enter_code
    else if b == 0x09
    then some t.tab_code
    else if b == 0x1b
    then some t.escape_code
    else if b == 0x7f
    then some t.backspace_code
    else none

letter_code : KeyCodes → ℕ → Option ℕ
letter_code t b =
    if b == b'A'
    then some t.up_code
    else if b == b'B'
    then some t.down_code
    else if b == b'C'
    then some t.right_code
    else if b == b'D'
    then some t.left_code
    else if b == b'H'
    then some t.home_code
    else if b == b'F'
    then some t.end_code
    else none

tilde_code : KeyCodes → ℕ → Option ℕ
tilde_code t b =
    if b == b'2'
    then some t.insert_code
    else if b == b'3'
    then some t.delete_code
    else if b == b'5'
    then some t.pg_up_code
    else if b == b'6'
    then some t.pg_down_code
    else none

pub sequence_code : KeyCodes → Bytes → Option ℕ
unfolding single_code letter_code tilde_code
sequence_code t [] = none
sequence_code t (a ∷ []) = single_code t a
sequence_code t (a ∷ b ∷ []) = none
sequence_code t (a ∷ b ∷ c ∷ []) = if a == 0x1b && b == b'[' then letter_code t c else none
sequence_code t (a ∷ b ∷ c ∷ d ∷ []) =
    if a == 0x1b && (b == b'[' && d == b'~') then tilde_code t c else none
sequence_code t (a ∷ b ∷ c ∷ d ∷ e ∷ s) = none

Reads : KeyCodes → ℕ → Option Bytes → Type 0
Reads t c none = Unit
Reads t c (some s) = sequence_code t s ≡ some c

named_key-Reads : (t : KeyCodes) (c : ℕ) → Reads t c (named_key t c)
unfolding named_key Reads sequence_code single_code letter_code tilde_code
named_key-Reads t c = ground arith

encode_key-named :
    (t : KeyCodes) (k : KeyPress) (s : Bytes)
    → named_key t k.code ≡ some s
    → encode_key t k ≡ (if k.alt then 0x1b ∷ [] else []) ++ s
unfolding encode_key unnamed
encode_key-named t k s h = rw h refl

-- The bytes of a named key, held without Alt, are read back as the code of that key.
sequence_code-encode_key :
    (t : KeyCodes) (k : KeyPress) (s : Bytes)
    → named_key t k.code ≡ some s
    → k.alt ≡ false
    → sequence_code t (encode_key t k) ≡ some k.code
unfolding Reads
sequence_code-encode_key t k s h a =
    ap (sequence_code t) (encode_key-named t k s h ∙ ap (λ b. (if b then 0x1b ∷ [] else []) ++ s) a)
    ∙ subst (Reads t k.code) h (named_key-Reads t k.code)
