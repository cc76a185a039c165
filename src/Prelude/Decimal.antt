-- ===== src/Prelude/Decimal.antt =====
-- Decimal and hexadecimal text: `strconv.Itoa`, the verb %02x, and the digits of `strconv.Atoi`.
use Prim.Native.Nat.{ℕ, zero, suc, ◌+◌, ◌-◌, ◌*◌, ◌/◌, ◌%◌, ◌≤◌, ◌<◌}
use mathlib.Core.Path.{◌≡◌, refl, sym, ap, ◌∙◌, subst}
use mathlib.Core.Logic.{inl, inr}
use mathlib.Core.Bool.{Bool, ◌&&◌}
use mathlib.Core.Option.{Option, none, some}
use mathlib.Core.List.{[], ◌∷◌, ◌++◌}
use native.Mathlib.Omega.{arith}
use shevet.Prelude.Tests.{ltb, leb, ◌==◌, if◌then◌else◌, Bool-cases}
use shevet.Prelude.Lists.{All, All-append}
use shevet.Prelude.Text.{Bytes}
use shevet.Prelude.Int.{ℤ, pos, negsuc}

-- Fuel counts digits; `decimal` gives one more than the number itself, which is always enough.
digits : ℕ → ℕ → Bytes
digits zero n = []
digits (suc f) n =
    let rest = digits f (n / 10) ++ (b'0' + n % 10) ∷ [] in
    if ltb n 10 then (b'0' + n) ∷ [] else rest

unfoldable pub decimal : ℕ → Bytes
unfolding digits
decimal n = digits (suc n) n

unfoldable pub itoa : ℤ → Bytes
unfolding decimal
itoa (pos n) = decimal n
itoa (negsuc n) = b'-' ∷ decimal (n + 1)

abbrev pub is_digit : ℕ → Bool
is_digit c = leb b'0' c && leb c b'9'

-- The value of a run of digits behind `n`; `none` at any other byte.
unfoldable pub scan_digits : ℕ → Bytes → Option ℕ
scan_digits n [] = some n
scan_digits n (c ∷ s) = if is_digit c then scan_digits (n * 10 + (c - b'0')) s else none

abbrev pub max_int : ℕ
max_int = 9223372036854775807

-- What `strconv.Atoi` takes without a sign: one digit or more, with no overflow of int.
unfoldable pub atoi_digits : Bytes → Option ℕ
unfolding scan_digits
atoi_digits [] = none
atoi_digits (c ∷ s) = elim (scan_digits 0 (c ∷ s)) [
  | none ↦ none
  | some n ↦ if leb n max_int then some n else none
]

-- `strconv.Atoi`, with its sign.
abbrev negated : Option ℕ → Option ℤ
negated none = none
negated (some zero) = some (pos 0)
negated (some (suc n)) = some (negsuc n)

abbrev positive : Option ℕ → Option ℤ
positive none = none
positive (some n) = some (pos n)

-- The magnitude of the least int is one more than that of the greatest.
neg_digits : Bytes → Option ℕ
unfolding scan_digits
neg_digits [] = none
neg_digits (c ∷ s) = elim (scan_digits 0 (c ∷ s)) [
  | none ↦ none
  | some n ↦ if leb n (max_int + 1) then some n else none
]

unfoldable pub atoi : Bytes → Option ℤ
unfolding atoi_digits neg_digits
atoi [] = none
atoi (c ∷ s) =
    if c == b'-'
    then negated (neg_digits s)
    else if c == b'+'
    then positive (atoi_digits s)
    else positive (atoi_digits (c ∷ s))

abbrev pub IsDigit : ℕ → Type 0
IsDigit c = (b'0' ≤ c) × (c ≤ b'9')

digits-IsDigit : (f n : ℕ) → All IsDigit (digits f n)
unfolding digits
digits-IsDigit zero n = tt
digits-IsDigit (suc f) n = elim (Bool-cases (ltb n 10)) [
  | inl small ↦ rw small (ground arith)
  | inr big ↦
      rw big (All-append IsDigit (digits f (n / 10)) _ (digits-IsDigit f (n / 10)) (omega arith))
]

pub decimal-IsDigit : (n : ℕ) → All IsDigit (decimal n)
unfolding decimal
decimal-IsDigit n = digits-IsDigit (suc n) n

scan_digits-append :
    (s t : Bytes) (n m : ℕ) → scan_digits n s ≡ some m → scan_digits n (s ++ t) ≡ scan_digits m t
unfolding scan_digits
scan_digits-append [] t n m h = ground arith
scan_digits-append (c ∷ s) t n m h = ground (arith, scan_digits-append s t (n * 10 + (c - b'0')) m)

scan_last : (n : ℕ) → scan_digits (n / 10) ((b'0' + n % 10) ∷ []) ≡ some n
unfolding scan_digits
scan_last n = ground arith

scan-digits : (f n : ℕ) → n < f → scan_digits 0 (digits f n) ≡ some n
unfolding digits
scan-digits zero n h = absurd (omega arith)
scan-digits (suc f) n h = elim (Bool-cases (ltb n 10)) [
  | inl small ↦ rw small (unfold scan_digits in ground arith)
  | inr big ↦ rw big (
      scan_digits-append (digits f (n / 10)) _ 0 (n / 10) (scan-digits f (n / 10) (ground arith))
      ∙ scan_last n)
]

-- The decimal text of a number is read back as that number.
pub scan-decimal : (n : ℕ) → scan_digits 0 (decimal n) ≡ some n
unfolding decimal
scan-decimal n = scan-digits (suc n) n (omega arith)

digits-ne : (f n : ℕ) → (c : ℕ) × (s : Bytes) × (digits (suc f) n ≡ c ∷ s)
unfolding digits
digits-ne zero n = elim (Bool-cases (ltb n 10)) [
  | inl small ↦ (b'0' + n, [], rw small)
  | inr big ↦ (b'0' + n % 10, [], rw big)
]
digits-ne (suc f) n = elim (Bool-cases (ltb n 10)) [
  | inl small ↦ (b'0' + n, [], rw small)
  | inr big ↦ let (c, s, e) = digits-ne f (n / 10) in (c, s ++ (b'0' + n % 10) ∷ [], rw (big, e))
]

pub decimal-cons : (n : ℕ) → (c : ℕ) × (s : Bytes) × (decimal n ≡ c ∷ s)
unfolding decimal
decimal-cons n = digits-ne n n

-- One hexadecimal digit, in lower case.
unfoldable pub hex_digit : ℕ → ℕ
hex_digit d = if ltb d 10 then b'0' + d else 87 + d

-- `%02x` of a byte.
unfoldable pub hex2 : ℕ → Bytes
unfolding hex_digit
hex2 b = hex_digit (b / 16) ∷ hex_digit (b % 16) ∷ []

tests_itoa : (itoa (pos 80) ≡ 56 ∷ 48 ∷ []) × (itoa (negsuc 6) ≡ 45 ∷ 55 ∷ [])
unfolding itoa
tests_itoa = (refl, refl)

atoi_digits-scan :
    (c : ℕ) (s : Bytes) (n : ℕ)
    → scan_digits 0 (c ∷ s) ≡ some n
    → n ≤ max_int
    → atoi_digits (c ∷ s) ≡ some n
unfolding atoi_digits
atoi_digits-scan c s n h k = ground arith

atoi-digit : (c : ℕ) (s : Bytes) → IsDigit c → atoi (c ∷ s) ≡ positive (atoi_digits (c ∷ s))
unfolding atoi
atoi-digit c s h = ground arith

-- The decimal text of an int that is not negative is read back as that int.
pub atoi-decimal : (n : ℕ) → n ≤ max_int → atoi (decimal n) ≡ some (pos n)
atoi-decimal n h =
    let (c, s, e) = decimal-cons n in
    ap atoi e
    ∙ (atoi-digit c s (subst (All IsDigit) e (decimal-IsDigit n)).0
        ∙ ap positive (atoi_digits-scan c s n (ap (scan_digits 0) (sym e) ∙ scan-decimal n) h))

pub itoa-pos : (n : ℕ) → itoa (pos n) ≡ decimal n
unfolding itoa
itoa-pos n = refl

pub itoa-negsuc : (n : ℕ) → itoa (negsuc n) ≡ b'-' ∷ decimal (n + 1)
unfolding itoa
itoa-negsuc n = refl

neg_digits-scan :
    (c : ℕ) (s : Bytes) (n : ℕ)
    → scan_digits 0 (c ∷ s) ≡ some (n + 1)
    → n ≤ max_int
    → neg_digits (c ∷ s) ≡ some (n + 1)
unfolding neg_digits
neg_digits-scan c s n h k = ground arith

negated-suc : (n : ℕ) → negated (some (n + 1)) ≡ some (negsuc n)
negated-suc n = ap (λ m. negated (some m)) (as_suc n)
  where
    as_suc : (n : ℕ) → n + 1 ≡ suc n
    as_suc n = omega arith

atoi-negated : (s : Bytes) → atoi (b'-' ∷ s) ≡ negated (neg_digits s)
unfolding atoi
atoi-negated s = refl

-- A minus sign and digits are read as the negative number.
pub atoi-minus : (n : ℕ) → n ≤ max_int → atoi (b'-' ∷ decimal (n + 1)) ≡ some (negsuc n)
atoi-minus n h =
    let (c, s, e) = decimal-cons (n + 1) in
    atoi-negated (decimal (n + 1))
    ∙ (ap (λ t. negated (neg_digits t)) e
        ∙ (ap negated (neg_digits-scan c s n (ap (scan_digits 0) (sym e) ∙ scan-decimal (n + 1)) h)
            ∙ negated-suc n))
