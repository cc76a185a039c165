-- ===== src/Tmuxctl/Channel/Routing.antt =====
-- internal/tmuxctl/client.go: the slots of whole sequences, and what a reply does to them.
use shevet.Prelude.{
  ℕ, suc, ◌-◌, ◌≡◌, refl, sym, ap, ◌∙◌, Bool, true, false, List, [], ◌∷◌, ◌++◌, map, append-nil,
  append_assoc, arith, if_true, if_false, if_cases, length, take, length-append,
}
use shevet.Tmuxctl.Parse.{Reply}
use shevet.Tmuxctl.Channel.{
  Pending, Client, slot, slots, enqueue, rollback, aborted, answer, purge, route,
}

-- The answers to the commands that an error skips.
abbrev pub skipped : List ℕ → List (ℕ × Reply)
skipped cs = map (λ c. (c, aborted)) cs

-- The slots of whole sequences.
abbrev pub flat : List (ℕ × List ℕ) → List Pending
flat [] = []
flat ((c, cs) ∷ rest) = slots (c ∷ cs) ++ flat rest

pub flat-append :
    (gs : List (ℕ × List ℕ)) (c : ℕ) (cs : List ℕ)
    → flat (gs ++ (c, cs) ∷ []) ≡ flat gs ++ slots (c ∷ cs)
flat-append [] c cs = append-nil (slots (c ∷ cs))
flat-append ((d, ds) ∷ gs) c cs =
    rw (flat-append gs c cs) (sym (append_assoc (slots (d ∷ ds)) (flat gs) (slots (c ∷ cs))))

take-append {ℓ} : {A : Type ℓ} (xs ys : List A) → take (length xs) (xs ++ ys) ≡ xs
take-append [] [] = refl
take-append [] (y ∷ ys) = refl
take-append (x ∷ xs) ys = ap (λ r. x ∷ r) (take-append xs ys)

length-slots : (c : ℕ) (cs : List ℕ) → length (slots (c ∷ cs)) ≡ suc (length cs)
length-slots c cs = ap suc (go cs)
  where
    go : (cs : List ℕ) → length (map (slot true) cs) ≡ length cs
    go [] = refl
    go (d ∷ ds) = ap suc (go ds)

-- A line that is not written leaves the client as it was.
pub rollback-enqueue :
    (c : ℕ) (cs : List ℕ) (s : Client) → rollback (c ∷ cs) (enqueue (c ∷ cs) s) ≡ s
unfolding rollback enqueue
rollback-enqueue c cs s =
    ap (λ ps. record s { pending = ps })
      (ap (λ n. take n (s.pending ++ slots (c ∷ cs))) counted
        ∙ take-append s.pending (slots (c ∷ cs)))
  where
    counted : length (s.pending ++ slots (c ∷ cs)) - length (c ∷ cs) ≡ length s.pending
    counted = omega (arith, length-append s.pending (slots (c ∷ cs)), length-slots c cs)

purge-whole :
    (gs : List (ℕ × List ℕ)) (s : Client) → purge (flat gs) s ≡ record s { pending = flat gs }
unfolding purge
purge-whole [] s = refl
purge-whole ((c, cs) ∷ gs) s = refl

purge-skipped :
    (cs : List ℕ) (gs : List (ℕ × List ℕ)) (s : Client)
    → purge (map (slot true) cs ++ flat gs) s
      ≡ record s { pending = flat gs; answered = s.answered ++ skipped cs }
unfolding purge answer
purge-skipped [] gs s =
    purge-whole gs s
    ∙ ap (λ l. record s { pending = flat gs; answered = l }) (sym (append-nil s.answered))
purge-skipped (c ∷ cs) gs s =
    purge-skipped cs gs (answer aborted c s)
    ∙ ap (λ l. record s { pending = flat gs; answered = l })
        (append_assoc s.answered ((c, aborted) ∷ []) (skipped cs))

-- The head of the queue is answered; behind a whole sequence nothing is dropped.
pub route-last :
    (r : Reply) (b : Bool) (c : ℕ) (gs : List (ℕ × List ℕ)) (s : Client)
    → route r (slot b c ∷ flat gs) s
      ≡ record s { pending = flat gs; answered = s.answered ++ (c, r) ∷ [] }
unfolding route answer
route-last r b c gs s =
    let got = record (answer r c s) { pending = flat gs } in
    if_cases (λ x. x ≡ got) r.is_err (purge (flat gs) got) got (λ _. purge-whole gs got) (λ _. refl)

-- An error drops the commands behind it in its sequence, each with an answer.
pub route-error :
    (r : Reply) (b : Bool) (c : ℕ) (cs : List ℕ) (gs : List (ℕ × List ℕ)) (s : Client)
    → r.is_err ≡ true
    → route r (slot b c ∷ (map (slot true) cs ++ flat gs)) s
      ≡ record s { pending = flat gs; answered = s.answered ++ ((c, r) ∷ skipped cs) }
unfolding route answer
route-error r b c cs gs s h =
    let left = map (slot true) cs ++ flat gs in
    let got = record (answer r c s) { pending = left } in
    if_true r.is_err (purge left got) got h
    ∙ (purge-skipped cs gs got
        ∙ ap (λ l. record s { pending = flat gs; answered = l })
            (append_assoc s.answered ((c, r) ∷ []) (skipped cs)))

pub route-ok :
    (r : Reply) (p : Pending) (ps : List Pending) (s : Client)
    → r.is_err ≡ false
    → route r (p ∷ ps) s ≡ record s { pending = ps; answered = s.answered ++ (p.ch, r) ∷ [] }
unfolding route answer
route-ok r p ps s h =
    let got = record (answer r p.ch s) { pending = ps } in if_false r.is_err (purge ps got) got h
