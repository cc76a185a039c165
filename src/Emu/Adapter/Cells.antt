-- ===== src/Emu/Adapter/Cells.antt =====
-- internal/emu/emu.go: what a as_cell cell keeps of the terminal's cell.
use mathlib.Core.Path.{subst}
use shevet.Prelude.{
  ℕ, ◌+◌, ◌*◌, ◌/◌, ◌%◌, ◌^◌, ◌≤◌, ◌<◌, ◌≡◌, refl, ◌∙◌, ◌⊎◌, inl, inr, Bool, true, false, not, ◌||◌,
  Option, none, some, [], arith, ◌==◌, if◌then◌else◌, Bool-cases, if_false, if_cases, Bytes, codes,
  bytes_eq, bytes_eq→≡,
}
use shevet.Grid.{Cell, default_cell}
use shevet.Tui.Render.{rgb, components}
use shevet.Emu.Adapter.{Style, VtCell, convert_cell, convert_color, convert_attrs, is_plain_blank}

-- A color of the grid that stands for a color of the terminal: none, or its components' high bytes.
abbrev pub Colored : Option (ℕ × ℕ × ℕ) → ℕ → Type 0
Colored none n = n ≡ 0
Colored (some (r, g, b)) n = components n ≡ some (r / 256 % 256, g / 256 % 256, b / 256 % 256)

abbrev pub bit_of : Bool → ℕ
bit_of true = 1
bit_of false = 0

-- Each attribute is one bit.
pub record HasAttrs (s : Style) (n : ℕ) : Type 0 where
  pub bold : n % 2 ≡ bit_of s.bold
  pub faint : n / 2 % 2 ≡ bit_of s.faint
  pub italic : n / 4 % 2 ≡ bit_of s.italic
  pub underline : n / 8 % 2 ≡ bit_of (not (s.underline == 0))
  pub blink : n / 16 % 2 ≡ bit_of s.blink
  pub reverse : n / 32 % 2 ≡ bit_of s.reverse
  pub strikethrough : n / 64 % 2 ≡ bit_of s.strikethrough
  pub no_other : n < 128

-- Content and width, colors, and attributes of a cell.
pub record Keeps (v : VtCell) (c : Cell) : Type 0 where
  pub content : c.content ≡ v.content
  pub width : c.width ≡ v.width
  pub fg : Colored v.style.fg c.fg
  pub bg : Colored v.style.bg c.bg
  pub attrs : HasAttrs v.style c.attrs

-- A blank without colors and attributes.
pub record IsBlank (v : VtCell) : Type 0 where
  pub content : (v.content ≡ []) ⊎ (v.content ≡ codes " ")
  pub fg : Colored v.style.fg 0
  pub bg : Colored v.style.bg 0
  pub attrs : HasAttrs v.style 0

-- How a cell of the grid shows what the terminal has there.
abbrev pub Shows : Option VtCell → Cell → Type 0
Shows none c = c ≡ default_cell
Shows (some v) c = (IsBlank v × (c ≡ default_cell)) ⊎ Keeps v c

red :
    (r g b : ℕ)
    → r < 256
    → g < 256
    → b < 256
    → (2 ^ 24 + (r * 65536 + (g * 256 + b))) / 65536 % 256 ≡ r
red r g b hr hg hb = omega arith

green :
    (r g b : ℕ)
    → r < 256
    → g < 256
    → b < 256
    → (2 ^ 24 + (r * 65536 + (g * 256 + b))) / 256 % 256 ≡ g
green r g b hr hg hb = omega arith

blue : (r g b : ℕ) → r < 256 → g < 256 → b < 256 → (2 ^ 24 + (r * 65536 + (g * 256 + b))) % 256 ≡ b
blue r g b hr hg hb = omega arith

components-rgb : (r g b : ℕ) → r < 256 → g < 256 → b < 256 → components (rgb r g b) ≡ some (r, g, b)
unfolding components rgb
components-rgb r g b hr hg hb =
    let n : ℕ = 2 ^ 24 + (r * 65536 + (g * 256 + b)) in
    if_false (n == 0) none (some (n / 65536 % 256, n / 256 % 256, n % 256)) (ground arith) ∙ λ i.
    some (red r g b hr hg hb i, green r g b hr hg hb i, blue r g b hr hg hb i)

convert_color-Colored : (c : Option (ℕ × ℕ × ℕ)) → Colored c (convert_color c)
unfolding convert_color
convert_color-Colored none = refl
convert_color-Colored (some (r, g, b)) =
    components-rgb (r / 256 % 256) (g / 256 % 256) (b / 256 % 256) (omega arith) (omega arith)
      (omega arith)

with_attr-bit : (b : Bool) (k a : ℕ) → (if b then a + k else a) ≡ a + bit_of b * k
with_attr-bit true k a = omega arith
with_attr-bit false k a = omega arith

bit_small : (b : Bool) → bit_of b ≤ 1
bit_small true = omega arith
bit_small false = omega arith

attrs_sum :
    (s : Style)
    → convert_attrs s
      ≡ bit_of s.bold
        + bit_of s.faint * 2
        + bit_of s.italic * 4
        + bit_of s.blink * 16
        + bit_of s.reverse * 32
        + bit_of s.strikethrough * 64
        + bit_of (not (s.underline == 0)) * 8
unfolding convert_attrs
attrs_sum s =
    let a : ℕ = if s.bold then 0 + 2 ^ 0 else 0 in
    let b : ℕ = if s.faint then a + 2 ^ 1 else a in
    let c : ℕ = if s.italic then b + 2 ^ 2 else b in
    let d : ℕ = if s.blink then c + 2 ^ 4 else c in
    let e : ℕ = if s.reverse then d + 2 ^ 5 else d in
    let f : ℕ = if s.strikethrough then e + 2 ^ 6 else e in
    with_attr-bit (not (s.underline == 0)) 8 f
    ∙ adds a b c d e f (bit_of s.bold) (bit_of s.faint) (bit_of s.italic) (bit_of s.blink)
        (bit_of s.reverse) (bit_of s.strikethrough) (bit_of (not (s.underline == 0)))
        (with_attr-bit s.bold 1 0) (with_attr-bit s.faint 2 a) (with_attr-bit s.italic 4 b)
        (with_attr-bit s.blink 16 c) (with_attr-bit s.reverse 32 d)
        (with_attr-bit s.strikethrough 64 e)
  where
    adds :
        (a b c d e f p q r u v w x : ℕ)
        → a ≡ 0 + p * 1
        → b ≡ a + q * 2
        → c ≡ b + r * 4
        → d ≡ c + u * 16
        → e ≡ d + v * 32
        → f ≡ e + w * 64
        → f + x * 8 ≡ p + q * 2 + r * 4 + u * 16 + v * 32 + w * 64 + x * 8
    adds a b c d e f p q r u v w x ha hb hc hd he hf = omega arith

bits :
    (n a b c d e f g : ℕ)
    → a ≤ 1
    → b ≤ 1
    → c ≤ 1
    → d ≤ 1
    → e ≤ 1
    → f ≤ 1
    → g ≤ 1
    → n ≡ a + b * 2 + c * 4 + d * 16 + e * 32 + f * 64 + g * 8
    → (n % 2 ≡ a)
      × (n / 2 % 2 ≡ b)
      × (n / 4 % 2 ≡ c)
      × (n / 8 % 2 ≡ g)
      × (n / 16 % 2 ≡ d)
      × (n / 32 % 2 ≡ e)
      × (n / 64 % 2 ≡ f)
      × (n < 128)
bits n a b c d e f g ha hb hc hd he hf hg h = (
  omega arith,
  omega arith,
  omega arith,
  omega arith,
  omega arith,
  omega arith,
  omega arith,
  omega arith,
)

convert_attrs-HasAttrs : (s : Style) → HasAttrs s (convert_attrs s)
convert_attrs-HasAttrs s =
    let (bold, faint, italic, underline, blink, reverse, strikethrough, small) =
      bits (convert_attrs s) (bit_of s.bold) (bit_of s.faint) (bit_of s.italic) (bit_of s.blink)
        (bit_of s.reverse) (bit_of s.strikethrough) (bit_of (not (s.underline == 0)))
        (bit_small s.bold) (bit_small s.faint) (bit_small s.italic) (bit_small s.blink)
        (bit_small s.reverse) (bit_small s.strikethrough) (bit_small (not (s.underline == 0)))
        (attrs_sum s) in
    record {
      bold = bold;
      faint = faint;
      italic = italic;
      underline = underline;
      blink = blink;
      reverse = reverse;
      strikethrough = strikethrough;
      no_other = small;
    }

abbrev as_cell : VtCell → Cell
as_cell v = record {
  content = v.content;
  width = v.width;
  fg = convert_color v.style.fg;
  bg = convert_color v.style.bg;
  attrs = convert_attrs v.style;
}

as_cell-Keeps : (v : VtCell) → Keeps v (as_cell v)
as_cell-Keeps v = record {
  content = refl;
  width = refl;
  fg = convert_color-Colored v.style.fg;
  bg = convert_color-Colored v.style.bg;
  attrs = convert_attrs-HasAttrs v.style;
}

blank_content :
    (s : Bytes) → (bytes_eq s [] || bytes_eq s (codes " ")) ≡ true → (s ≡ []) ⊎ (s ≡ codes " ")
blank_content s h = elim (Bool-cases (bytes_eq s [])) [
  | inl e ↦ inl (bytes_eq→≡ s [] e)
  | inr n ↦ inr (bytes_eq→≡ s (codes " ") (ground arith))
]

as_cell-IsBlank : (v : VtCell) → is_plain_blank (as_cell v) ≡ true → IsBlank v
as_cell-IsBlank v h =
    let fg : convert_color v.style.fg ≡ 0 = ground arith in
    let bg : convert_color v.style.bg ≡ 0 = ground arith in
    let attrs : convert_attrs v.style ≡ 0 = ground arith in
    record {
      content = blank_content v.content (ground arith);
      fg = subst (λ n. Colored v.style.fg n) fg (convert_color-Colored v.style.fg);
      bg = subst (λ n. Colored v.style.bg n) bg (convert_color-Colored v.style.bg);
      attrs = subst (λ n. HasAttrs v.style n) attrs (convert_attrs-HasAttrs v.style);
    }

pub convert_cell-Shows : (o : Option VtCell) → Shows o (convert_cell o)
unfolding convert_cell
convert_cell-Shows none = refl
convert_cell-Shows (some v) =
    if_cases (λ c. (IsBlank v × (c ≡ default_cell)) ⊎ Keeps v c) (is_plain_blank (as_cell v))
      default_cell (as_cell v) (λ h. inl (as_cell-IsBlank v h, refl)) (λ h. inr (as_cell-Keeps v))
