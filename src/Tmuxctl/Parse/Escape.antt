-- ===== src/Tmuxctl/Parse/Escape.antt =====
-- internal/tmuxctl/parse.go: decoding of what tmux escapes, for each way in which tmux may do it.
use shevet.Prelude.{
  ℕ, suc, zero, ◌+◌, ◌-◌, ◌*◌, ◌%◌, ◌≤◌, ◌≡◌, refl, ap, ◌≢◌, true, false, [], ◌∷◌, arith, ◌==◌,
  length, Bytes,
}
use shevet.Tmuxctl.Parse.{is_octal, octal, c_escape, escape, decode_loop, decode_output}

-- The letters of the escapes and the bytes that they stand for.
pub data CEscape : ℕ → ℕ → Type 0 where
  bell : CEscape 7 b'a'
  backspace : CEscape 8 b'b'
  form_feed : CEscape 12 b'f'
  newline : CEscape 10 b'n'
  return : CEscape 13 b'r'
  tab : CEscape 9 b't'
  vertical_tab : CEscape 11 b'v'
  backslash : CEscape 0x5c 0x5c

-- A text that spells some bytes: any byte but the backslash as it is, or one of the letters, or
-- three octal digits.
pub data Encodes : Bytes → Bytes → Type 0 where
  done : Encodes [] []
  plain : {b : ℕ} {s t : Bytes} → b ≢ 0x5c → Encodes s t → Encodes (b ∷ s) (b ∷ t)
  letter : {b c : ℕ} {s t : Bytes} → CEscape b c → Encodes s t → Encodes (b ∷ s) (0x5c ∷ c ∷ t)
  digits :
      {x y z : ℕ} {s t : Bytes}
      → x ≤ 3
      → y ≤ 7
      → z ≤ 7
      → Encodes s t
      → Encodes ((x * 64 + (y * 8 + z)) ∷ s) (0x5c ∷ (48 + x) ∷ (48 + y) ∷ (48 + z) ∷ t)

escape_letter : (b c : ℕ) (t : Bytes) → CEscape b c → escape c t ≡ (b ∷ [], t)
unfolding escape c_escape octal
escape_letter _ _ t bell = refl
escape_letter _ _ t backspace = refl
escape_letter _ _ t form_feed = refl
escape_letter _ _ t newline = refl
escape_letter _ _ t return = refl
escape_letter _ _ t tab = refl
escape_letter _ _ t vertical_tab = refl
escape_letter _ _ t backslash = refl

is_octal-digit : (x : ℕ) → x ≤ 7 → is_octal (48 + x) ≡ true
is_octal-digit x h = ground arith

octal_value :
    (x y z : ℕ)
    → x ≤ 3
    → y ≤ 7
    → z ≤ 7
    → ((48 + x - 48) * 8 % 256 + (48 + y - 48)) * 8 % 256 + (48 + z - 48) ≡ x * 64 + (y * 8 + z)
octal_value x y z h k l = omega arith

escape_digits :
    (x y z : ℕ) (t : Bytes)
    → x ≤ 3
    → y ≤ 7
    → z ≤ 7
    → escape (48 + x) ((48 + y) ∷ (48 + z) ∷ t) ≡ ((x * 64 + (y * 8 + z)) ∷ [], t)
unfolding escape octal
escape_digits x y z t h k l =
    rw (is_octal-digit x (omega arith), is_octal-digit y k, is_octal-digit z l)
      (ap (λ n. (n ∷ [], t)) (octal_value x y z h k l))

not_backslash : (b : ℕ) → b ≢ 0x5c → (b == 0x5c) ≡ false
not_backslash b n = ground arith

decode_loop-Encodes :
    (fuel : ℕ) (s t : Bytes) → Encodes s t → length t ≤ fuel → decode_loop fuel t ≡ s
unfolding decode_loop
decode_loop-Encodes fuel _ _ done k = refl
decode_loop-Encodes zero _ _ (plain n h) k = absurd (omega arith)
decode_loop-Encodes zero _ _ (letter e h) k = absurd (omega arith)
decode_loop-Encodes zero _ _ (digits u v w h) k = absurd (omega arith)
decode_loop-Encodes (suc fuel) _ (b ∷ []) (plain n done) k = refl
decode_loop-Encodes (suc fuel) (b ∷ s) (_ ∷ d ∷ t) (plain n h) k =
    rw (not_backslash b n) (ap (λ r. b ∷ r) (decode_loop-Encodes fuel s (d ∷ t) h (omega arith)))
decode_loop-Encodes (suc fuel) (b ∷ s) (_ ∷ c ∷ t) (letter e h) k =
    rw (escape_letter b c t e) (ap (λ r. b ∷ r) (decode_loop-Encodes fuel s t h (omega arith)))
decode_loop-Encodes (suc fuel) (_ ∷ s) _ (digits {x = x} {y = y} {z = z} {t = t} u v w h) k =
    rw (escape_digits x y z t u v w)
      (ap (λ r. (x * 64 + (y * 8 + z)) ∷ r) (decode_loop-Encodes fuel s t h (omega arith)))

-- A text that spells some bytes in any of these ways decodes to them.
pub decode_output-Encodes : (s t : Bytes) → Encodes s t → decode_output t ≡ s
unfolding decode_output
decode_output-Encodes s t h = decode_loop-Encodes (length t) s t h (omega arith)
