-- ===== src/Tmuxctl/Parse/Output.antt =====
-- internal/tmuxctl/parse.go: the output that a pane wrote arrives in both forms of notification.
use shevet.Prelude.{
  ◌≡◌, refl, ap, ◌∙◌, ◌≢◌, false, none, some, List, [], ◌∷◌, ◌++◌, append_assoc, arith, if_false,
  All, Bytes, codes, bytes_eq, strip_prefix, cut_at, cut_found, join, Lacks, cut_at-join,
  ℕ_discrete,
}
use shevet.Tmuxctl.Parse.{
  Parser, output, decode_output, split_extended_output, notification, feed_idle, feed_reply, feed,
  extended_tail, value_of,
}
use shevet.Tmuxctl.Parse.Escape.{Encodes, decode_output-Encodes}

-- A reserved field: no blank, and not the colon that ends the fields.
abbrev pub IsField : Bytes → Type 0
IsField f = Lacks 32 f × (f ≢ codes ":")

-- A separator that begins with a blank is not inside a word.
cut_at-skip :
    (sep w s b a : Bytes)
    → Lacks 32 w
    → cut_at (32 ∷ sep) s ≡ some (b, a)
    → cut_at (32 ∷ sep) (w ++ s) ≡ some (w ++ b, a)
unfolding cut_at strip_prefix
cut_at-skip sep [] s b a h e = e
cut_at-skip sep (c ∷ w) s b a h e = ground (arith, cut_at-skip sep w s b a h.1 e)

-- A blank before a field that is not the colon does not begin the separator.
not_there : (f s : Bytes) → IsField f → strip_prefix (codes ": ") (f ++ (32 ∷ s)) ≡ none
unfolding strip_prefix
not_there [] s h = refl
not_there (c ∷ []) s h = elim (ℕ_discrete c 58) [
  | yes e ↦ absurd (h.1 (ap (λ d. d ∷ []) e))
  | no n ↦ ground arith
]
not_there (c ∷ d ∷ f) s h = ground arith

no_colon :
    (f : Bytes) (fs : List Bytes) (value : Bytes)
    → IsField f
    → strip_prefix (codes ": ") (join (f ∷ fs) (codes " ") ++ (codes " : " ++ value)) ≡ none
unfolding join
no_colon f [] value h = not_there f (codes ": " ++ value) h
no_colon f (g ∷ fs) value h =
    ap (strip_prefix (codes ": "))
      (append_assoc f (32 ∷ join (g ∷ fs) (codes " ")) (codes " : " ++ value))
    ∙ not_there f (join (g ∷ fs) (codes " ") ++ (codes " : " ++ value)) h

cut_at-blank :
    (s b a : Bytes)
    → strip_prefix (codes ": ") s ≡ none
    → cut_at (codes " : ") s ≡ some (b, a)
    → cut_at (codes " : ") (32 ∷ s) ≡ some (32 ∷ b, a)
unfolding cut_at strip_prefix
cut_at-blank s b a n e = ground arith

cut_at-fields :
    (f : Bytes) (fs : List Bytes) (value : Bytes)
    → All IsField (f ∷ fs)
    → cut_at (codes " : ") (join (f ∷ fs) (codes " ") ++ (codes " : " ++ value))
      ≡ some (join (f ∷ fs) (codes " "), value)
unfolding join
cut_at-fields f [] value h = cut_at-join 32 (codes ": ") f value h.0.0
cut_at-fields f (g ∷ fs) value h =
    let later = join (g ∷ fs) (codes " ") in
    ap (cut_at (codes " : ")) (append_assoc f (32 ∷ later) (codes " : " ++ value))
    ∙ cut_at-skip (codes ": ") f (32 ∷ (later ++ (codes " : " ++ value))) (32 ∷ later) value h.0.0 (
        cut_at-blank (later ++ (codes " : " ++ value)) later value (no_colon g fs value h.1.0)
          (cut_at-fields g fs value h.1))

split_extended_output-parts :
    (pane f : Bytes) (fs : List Bytes) (value : Bytes)
    → Lacks 32 pane
    → All IsField (f ∷ fs)
    → split_extended_output
        (pane ++ (codes " " ++ (join (f ∷ fs) (codes " ") ++ (codes " : " ++ value))))
      ≡ (pane, value)
unfolding split_extended_output extended_tail
split_extended_output-parts pane f fs value h k =
    let tail = join (f ∷ fs) (codes " ") ++ (codes " : " ++ value) in
    ap (extended_tail (pane ++ (codes " " ++ tail))) (cut_at-join 32 [] pane tail h)
    ∙ ap (value_of pane) (cut_at-fields f fs value k)

feed_idle-output_word :
    (p : Parser) (rest : Bytes)
    → feed_idle p (codes "%output " ++ rest)
      ≡ (p, some (notification (codes "%output " ++ rest) (codes "%output") rest), none)
unfolding feed_idle cut_at strip_prefix bytes_eq
feed_idle-output_word p rest = refl

feed_idle-extended_word :
    (p : Parser) (rest : Bytes)
    → feed_idle p (codes "%extended-output " ++ rest) ≡ (
      p,
      some (notification (codes "%extended-output " ++ rest) (codes "%extended-output") rest),
      none,
    )
unfolding feed_idle cut_at strip_prefix bytes_eq
feed_idle-extended_word p rest = refl

notification-output :
    (line pane text : Bytes)
    → Lacks 32 pane
    → notification line (codes "%output") (pane ++ (codes " " ++ text))
      ≡ output pane (decode_output text) 0
unfolding notification bytes_eq
notification-output line pane text h =
    let rest = pane ++ (codes " " ++ text) in
    ap (λ o. output (cut_found rest o).0 (decode_output (cut_found rest o).1) 0)
      (cut_at-join 32 [] pane text h)

notification-extended :
    (line pane f : Bytes) (fs : List Bytes) (text : Bytes)
    → Lacks 32 pane
    → All IsField (f ∷ fs)
    → notification line
        (codes "%extended-output")
        (pane ++ (codes " " ++ (join (f ∷ fs) (codes " ") ++ (codes " : " ++ text))))
      ≡ output pane (decode_output text) 0
unfolding notification bytes_eq
notification-extended line pane f fs text h k =
    rw (split_extended_output-parts pane f fs text h k) refl

-- Outside a reply, a line of either form, for a pane without blanks, with any spelling of some bytes
-- is the event that the pane wrote those bytes; the extended form may have any reserved fields, from
-- one on, none of which has a blank or is a colon. The parser stays as it is, and no reply comes.
pub feed-output :
    (p : Parser) (pane f : Bytes) (fs : List Bytes) (bytes text : Bytes)
    → p.in_reply ≡ false
    → Lacks 32 pane
    → All IsField (f ∷ fs)
    → Encodes bytes text
    → (feed p (codes "%output " ++ (pane ++ (codes " " ++ text)))
        ≡ (p, some (output pane bytes 0), none))
      × (feed p (
            codes "%extended-output "
            ++ (pane ++ (codes " " ++ (join (f ∷ fs) (codes " ") ++ (codes " : " ++ text)))))
          ≡ (p, some (output pane bytes 0), none))
unfolding feed
feed-output p pane f fs bytes text idle h k e =
    let decoded = decode_output-Encodes bytes text e in
    let rest = pane ++ (codes " " ++ text) in
    let ext = pane ++ (codes " " ++ (join (f ∷ fs) (codes " ") ++ (codes " : " ++ text))) in
    let line = codes "%output " ++ rest in
    let line' = codes "%extended-output " ++ ext in
    (
      if_false p.in_reply (feed_reply p line) (feed_idle p line) idle
          ∙ (feed_idle-output_word p rest
              ∙ ap (λ e. (p, some e, none))
                  (notification-output line pane text h ∙ ap (λ d. output pane d 0) decoded)),
      if_false p.in_reply (feed_reply p line') (feed_idle p line') idle
          ∙ (feed_idle-extended_word p ext
              ∙ ap (λ e. (p, some e, none))
                  (notification-extended line' pane f fs text h k
                    ∙ ap (λ d. output pane d 0) decoded)),
    )
