-- ===== src/Prelude/Words.antt =====
-- Words and printed numbers under `strings.TrimSpace`, `strings.Cut` and `strconv.Atoi`.
use Prim.Native.Nat.{ℕ, ◌+◌, ◌≤◌}
use mathlib.Core.Path.{◌≡◌, refl, sym, ap, ◌∙◌, subst}
use mathlib.Core.Logic.{◌≢◌}
use mathlib.Core.Bool.{false}
use mathlib.Core.Option.{some}
use mathlib.Core.List.{[], ◌∷◌, reverse, reverse-cons, reverse-reverse}
use native.Mathlib.Omega.{arith}
use shevet.Prelude.Lists.{All, All-append, All-mono}
use shevet.Prelude.Text.{Bytes, is_space, trim_left, trim_space, Lacks}
use shevet.Prelude.Int.{ℤ, pos, negsuc}
use shevet.Prelude.Decimal.{
  decimal, itoa, max_int, atoi, IsDigit, decimal-IsDigit, atoi-decimal, atoi-minus, itoa-pos,
  itoa-negsuc,
}

abbrev pub Solid : Bytes → Type 0
Solid = All (λ c. is_space c ≡ false)

All-reverse {ℓ} : (P : ℕ → Type ℓ) (s : Bytes) → All P s → All P (reverse s)
All-reverse P [] h = tt
All-reverse P (c ∷ s) h =
    subst (All P) (sym (reverse-cons c s))
      (All-append P (reverse s) (c ∷ []) (All-reverse P s h.1) (h.0, tt))

trim_left-Solid : (s : Bytes) → Solid s → trim_left s ≡ s
unfolding trim_left
trim_left-Solid [] h = refl
trim_left-Solid (c ∷ s) h = rw h.0 refl

-- A text without white space is trimmed to itself.
pub trim_space-Solid : (s : Bytes) → Solid s → trim_space s ≡ s
unfolding trim_space
trim_space-Solid s h =
    ap (λ r. reverse (trim_left (reverse r))) (trim_left-Solid s h)
    ∙ (ap reverse (trim_left-Solid (reverse s) (All-reverse (λ c. is_space c ≡ false) s h))
        ∙ reverse-reverse s)

digit_solid : (c : ℕ) → IsDigit c → is_space c ≡ false
digit_solid c h = ground arith

pub decimal-Solid : (n : ℕ) → Solid (decimal n)
decimal-Solid n =
    All-mono IsDigit (λ c. is_space c ≡ false) (decimal n) digit_solid (decimal-IsDigit n)

pub decimal-Lacks : (n b : ℕ) → b ≤ 47 → Lacks b (decimal n)
decimal-Lacks n b h =
    All-mono IsDigit (λ c. c ≢ b) (decimal n) (λ c d e. differ c d e) (decimal-IsDigit n)
  where
    differ : (c : ℕ) → IsDigit c → c ≡ b → ⊥
    differ c d e = absurd (omega arith)

pub itoa-Solid : (z : ℤ) → Solid (itoa z)
itoa-Solid (pos n) = subst Solid (sym (itoa-pos n)) (decimal-Solid n)
itoa-Solid (negsuc n) = subst Solid (sym (itoa-negsuc n)) (refl, decimal-Solid (n + 1))

-- What an int can hold.
abbrev pub FitsInt : ℤ → Type 0
FitsInt (pos n) = n ≤ max_int
FitsInt (negsuc n) = n ≤ max_int

-- The decimal text of an int is read back as that int.
pub atoi-itoa : (z : ℤ) → FitsInt z → atoi (itoa z) ≡ some z
atoi-itoa (pos n) h = ap atoi (itoa-pos n) ∙ atoi-decimal n h
atoi-itoa (negsuc n) h = ap atoi (itoa-negsuc n) ∙ atoi-minus n h
