-- ===== src/Inject/Delivery.antt =====
-- What reaches the Pane. `typed` reads one send-keys command the way that tmux documents it, apart
-- from the code that builds it: literal text is typed as it stands and holds no control byte, and a
-- hexadecimal word names a code point, which tmux types in UTF-8.
use shevet.Prelude.{
  ℕ, suc, zero, ◌+◌, ◌-◌, ◌*◌, ◌/◌, ◌%◌, ◌≤◌, ◌<◌, ◌≡◌, refl, ap, ◌∙◌, ◌≢◌, inl, inr, Bool, true,
  false, not, ◌&&◌, Option, none, some, List, [], ◌∷◌, ◌++◌, map, append-nil, append_assoc, arith,
  ltb, leb, if◌then◌else◌, Bool-cases, length, take, All, Bytes, codes, bytes_eq, bytes_eq_refl,
}
use shevet.Prelude.Decimal.{hex_digit, hex2}
use shevet.Inject.Runs.{
  Run, split, spelled, spelled-split, IsUniform, split-IsUniform, Alternates, split-Alternates,
  send_run, send_all, keys-send_all,
}
use shevet.Inject.{
  Commander, is_control, literal_args, control_args, wrap_error, send_literal, send_control,
  and_then, keys,
}

unhex : ℕ → Option ℕ
unhex c =
    if leb b'0' c && leb c b'9'
    then some (c - b'0')
    else if leb b'a' c && leb c b'f'
    then some (c - 87)
    else none

-- The code point of a word of two hexadecimal digits.
code_point : Bytes → Option ℕ
unfolding unhex
code_point (h ∷ l ∷ []) = elim (unhex h) [
  | none ↦ none
  | some a ↦ elim (unhex l) [ none ↦ none | some b ↦ some (a * 16 + b) ]
]
code_point _ = none

utf8 : ℕ → Bytes
utf8 c = if ltb c 128 then c ∷ [] else (192 + c / 64) ∷ (128 + c % 64) ∷ []

pub typed_hex : List Bytes → Option Bytes
unfolding code_point utf8
typed_hex [] = some []
typed_hex (w ∷ ws) =
    let rest = typed_hex ws in
    elim (code_point w) [
      | none ↦ none
      | some c ↦ elim rest [ none ↦ none | some t ↦ some (utf8 c ++ t) ]
    ]

pub text_only : Bytes → Bool
unfolding is_control
text_only [] = true
text_only (b ∷ s) = not (is_control b) && text_only s

-- The words behind the target: `-l -- text`, or `-H` and hexadecimal words.
typed_literal : Bytes → List Bytes → Option Bytes
unfolding text_only bytes_eq
typed_literal flag (dashes ∷ text ∷ []) =
    if bytes_eq flag (codes "-l") && (bytes_eq dashes (codes "--") && text_only text)
    then some text
    else none
typed_literal flag _ = none

typed_words : List Bytes → Option Bytes
unfolding typed_literal bytes_eq
typed_words [] = none
typed_words (flag ∷ ws) = if bytes_eq flag (codes "-H") then typed_hex ws else typed_literal flag ws

-- The bytes that a command types into the pane; `none` where it is no send-keys for that pane.
pub typed : Bytes → List Bytes → Option Bytes
unfolding typed_words
typed pane (verb ∷ opt ∷ target ∷ ws) =
    if bytes_eq verb (codes "send-keys") && (bytes_eq opt (codes "-t") && bytes_eq target pane)
    then typed_words ws
    else none
typed pane _ = none

-- A pane that takes `left` more commands, with the bytes that were typed into it.
pub record Screen : Type 0 where
  pub received : Bytes
  pub left : ℕ

pub accept : Bytes → Option Bytes → Bytes → ℕ → Option Bytes × Screen
accept refusal t got zero = (some refusal, record { received = got; left = zero })
accept refusal none got (suc n) = (some refusal, record { received = got; left = suc n })
accept refusal (some t) got (suc n) = (none, record { received = got ++ t; left = n })

-- The commander that types what a command says, and fails with `refusal` when it may take no more.
pub tmux : Bytes → Bytes → Commander Screen
unfolding accept typed
tmux refusal pane args w = accept refusal (typed pane args) w.received w.left

code_point-hex2 : (b : ℕ) → b < 256 → code_point (hex2 b) ≡ some b
unfolding code_point unhex hex2 hex_digit
code_point-hex2 b h = ground arith

control-lt : (b : ℕ) → is_control b ≡ true → b < 128
unfolding is_control
control-lt b h = ground arith

utf8_ascii : (b : ℕ) → b < 128 → utf8 b ≡ b ∷ []
unfolding utf8
utf8_ascii b h = ground arith

typed_hex-cons :
    (w : Bytes) (ws : List Bytes) (c : ℕ) (t : Bytes)
    → code_point w ≡ some c
    → typed_hex ws ≡ some t
    → typed_hex (w ∷ ws) ≡ some (utf8 c ++ t)
unfolding typed_hex
typed_hex-cons w ws c t h k = rw (h, k, typed_hex)

typed_hex-map : (s : Bytes) → All (λ b. is_control b ≡ true) s → typed_hex (map hex2 s) ≡ some s
typed_hex-map [] h = unfold typed_hex in refl
typed_hex-map (b ∷ s) h =
    let small = control-lt b h.0 in
    typed_hex-cons (hex2 b) (map hex2 s) b s (code_point-hex2 b (omega arith)) (typed_hex-map s h.1)
    ∙ ap (λ t. some (t ++ s)) (utf8_ascii b small)

text_only-All : (s : Bytes) → All (λ b. is_control b ≡ false) s → text_only s ≡ true
unfolding text_only
text_only-All [] h = refl
text_only-All (b ∷ s) h = ground (arith, text_only-All s h.1)

-- A control run is typed as it is, by its hexadecimal words.
typed-control_args :
    (pane s : Bytes) → All (λ b. is_control b ≡ true) s → typed pane (control_args pane s) ≡ some s
unfolding typed typed_words control_args bytes_eq
typed-control_args pane s h = rw (bytes_eq_refl pane) (typed_hex-map s h)

-- A text run is typed as it is, by the literal form.
typed-literal_args :
    (pane s : Bytes) → All (λ b. is_control b ≡ false) s → typed pane (literal_args pane s) ≡ some s
unfolding typed typed_words typed_literal literal_args bytes_eq
typed-literal_args pane s h = rw (bytes_eq_refl pane, text_only-All s h)

-- One run within the budget: its bytes are typed, and a command is used up.
send_run_accepted :
    (refusal pane : Bytes) (r : Run) (got : Bytes) (n : ℕ)
    → IsUniform r
    → send_run (tmux refusal pane) pane r (record { received = got; left = suc n })
      ≡ (none, record { received = got ++ r.bytes; left = n })
unfolding send_run send_control send_literal tmux accept wrap_error
send_run_accepted refusal pane r got n u = elim (Bool-cases r.control) [
  | inl c ↦ rw (c, typed-control_args pane r.bytes (rw c at u.1))
  | inr t ↦ rw (t, typed-literal_args pane r.bytes (rw t at u.1))
]

-- One run beyond it: an error, and nothing is typed.
send_run_refused :
    (refusal pane : Bytes) (r : Run) (got : Bytes)
    → ((send_run (tmux refusal pane) pane r (record { received = got; left = 0 })).0 ≢ none)
      × ((send_run (tmux refusal pane) pane r (record { received = got; left = 0 })).1
          ≡ record { received = got; left = 0 })
unfolding send_run send_control send_literal tmux accept wrap_error
send_run_refused refusal pane r got = elim (Bool-cases r.control) [
  | inl c ↦ rw c (λ e. cc, refl)
  | inr t ↦ rw t (λ e. cc, refl)
]

send_all_accepted :
    (refusal pane : Bytes) (rs : List Run) (got : Bytes) (n : ℕ)
    → All IsUniform rs
    → length rs ≤ n
    → send_all (tmux refusal pane) pane rs (record { received = got; left = n })
      ≡ (none, record { received = got ++ spelled rs; left = n - length rs })
unfolding send_all and_then
send_all_accepted refusal pane [] got n u h = rw append-nil (ground arith)
send_all_accepted refusal pane (r ∷ rs) got zero u h = absurd (omega arith)
send_all_accepted refusal pane (r ∷ rs) got (suc n) u h =
    rw
      (
        send_run_accepted refusal pane r got n u.0,
        send_all_accepted refusal pane rs (got ++ r.bytes) n u.1 (omega arith),
        append_assoc,
      )
      (ground arith)

and_then_error :
    {W : Type 0} (m : Option Bytes × W) (next : W → Option Bytes × W)
    → m.0 ≢ none
    → ((and_then m next).0 ≢ none) × ((and_then m next).1 ≡ m.1)
unfolding and_then
and_then_error (none, w) next h = absurd (h refl)
and_then_error (some e, w) next h = (h, refl)

-- The bytes of the first runs, as many as there are commands left.
abbrev pub within : ℕ → Bytes → Bytes
within n s = spelled (take n (split s))

send_all_refused :
    (refusal pane : Bytes) (rs : List Run) (got : Bytes) (n : ℕ)
    → All IsUniform rs
    → n < length rs
    → ((send_all (tmux refusal pane) pane rs (record { received = got; left = n })).0 ≢ none)
      × ((send_all (tmux refusal pane) pane rs (record { received = got; left = n })).1
          ≡ record { received = got ++ spelled (take n rs); left = 0 })
unfolding send_all and_then
send_all_refused refusal pane [] got n u h = absurd (omega arith)
send_all_refused refusal pane (r ∷ rs) got zero u h =
    let (failed, same) = send_run_refused refusal pane r got in
    let (stopped, kept) = and_then_error (send_run (tmux refusal pane) pane r _) _ failed in
    rw append-nil (stopped, kept ∙ same)
send_all_refused refusal pane (r ∷ rs) got (suc n) u h =
    rw (send_run_accepted refusal pane r got n u.0, ← append_assoc got r.bytes)
      (send_all_refused refusal pane rs (got ++ r.bytes) n u.1 (omega arith))

pub keys_delivers :
    (refusal pane s got : Bytes) (n : ℕ)
    → length (split s) ≤ n
    → keys (tmux refusal pane) pane s (record { received = got; left = n })
      ≡ (none, record { received = got ++ s; left = n - length (split s) })
keys_delivers refusal pane s got n h =
    keys-send_all (tmux refusal pane) pane s _
    ∙ send_all_accepted refusal pane (split s) got n (split-IsUniform s) h
    ∙ ap (λ t. (none, record { received = got ++ t; left = n - length (split s) }))
        (spelled-split s)

-- If tmux fails at a command before the last run, then `Keys` reports an error, and the pane has
-- received the bytes of the runs before the failing one and nothing else.
pub keys_stops_at_error :
    (refusal pane s got : Bytes) (n : ℕ)
    → n < length (split s)
    → ((keys (tmux refusal pane) pane s (record { received = got; left = n })).0 ≢ none)
      × ((keys (tmux refusal pane) pane s (record { received = got; left = n })).1
          ≡ record { received = got ++ within n s; left = 0 })
keys_stops_at_error refusal pane s got n h =
    rw keys-send_all (send_all_refused refusal pane (split s) got n (split-IsUniform s) h)

-- `Keys` sends, in order and up to the first that fails, runs that spell the input, each of one
-- class and not empty, and neighbours differ in class, so that no two could be one command.
pub keys_runs :
    {W : Type 0} (command : Commander W) (pane s : Bytes) (w : W)
    → (keys command pane s w ≡ send_all command pane (split s) w)
      × (spelled (split s) ≡ s)
      × All IsUniform (split s)
      × Alternates (split s)
keys_runs command pane s w =
    (keys-send_all command pane s w, spelled-split s, split-IsUniform s, split-Alternates s)
