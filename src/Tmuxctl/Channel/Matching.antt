-- ===== src/Tmuxctl/Channel/Matching.antt =====
-- internal/tmuxctl/client.go: every reply reaches the command that it answers.
use mathlib.Core.Path.{subst}
use shevet.Prelude.{
  ℕ, ◌≡◌, refl, sym, ap, ◌∙◌, Bool, true, false, List, [], ◌∷◌, ◌++◌, map, append-nil, append_assoc,
  if◌then◌else◌, if_cases, codes, join,
}
use shevet.Tmuxctl.Parse.{Reply}
use shevet.Tmuxctl.Channel.{
  Pending, Client, new_client, slot, slots, enqueue, rollback, guard, route, complete_reply,
}
use shevet.Tmuxctl.Channel.Routing.{
  skipped, flat, flat-append, rollback-enqueue, route-last, route-error, route-ok,
}

-- What happens to a client: it sends a sequence of commands, or fails to, or a reply block arrives.
-- A sequence has a first command and others, each named by its channel.
pub data Call : Type 0 where
  send : (first : ℕ) (others : List ℕ) → Call
  fail_to_send : (first : ℕ) (others : List ℕ) → Call
  block : Reply → Call

unfoldable pub step : Call → Client → Client
unfolding enqueue rollback complete_reply
step (send c cs) s = enqueue (c ∷ cs) s
step (fail_to_send c cs) s = rollback (c ∷ cs) (enqueue (c ∷ cs) s)
step (block r) s = complete_reply r s

unfoldable pub run : List Call → Client → Client
unfolding step
run [] s = s
run (e ∷ es) s = run es (step e s)

-- What tmux does: it runs the sequences in order, each up to its first error, and answers the
-- attachment itself before all of them. `running` holds what it has yet to answer; `told` says
-- which command each block answers, and which commands an error skips.
pub record Tmux : Type 0 where
  pub started : Bool
  pub running : List (ℕ × List ℕ)
  pub told : List (ℕ × Reply)

unfoldable pub new_tmux : Tmux
new_tmux = record { started = false; running = []; told = [] }

unfoldable pub run_block : Reply → List (ℕ × List ℕ) → Tmux → Tmux
run_block r [] t = t
run_block r ((c, []) ∷ rest) t = record t { running = rest; told = t.told ++ (c, r) ∷ [] }
run_block r ((c, d ∷ cs) ∷ rest) t =
    if r.is_err
    then record t { running = rest; told = t.told ++ ((c, r) ∷ skipped (d ∷ cs)) }
    else record t { running = (d, cs) ∷ rest; told = t.told ++ (c, r) ∷ [] }

unfoldable pub tmux_step : Call → Tmux → Tmux
unfolding run_block
tmux_step (send c cs) t = record t { running = t.running ++ (c, cs) ∷ [] }
tmux_step (fail_to_send c cs) t = t
tmux_step (block r) t = if t.started then run_block r t.running t else record t { started = true }

unfoldable pub tmux_run : List Call → Tmux → Tmux
unfolding tmux_step
tmux_run [] t = t
tmux_run (e ∷ es) t = tmux_run es (tmux_step e t)

-- The slots that wait are those of the commands that tmux has to answer; the first of them may be
-- in the middle of its sequence.
abbrev pub Waits : List Pending → List (ℕ × List ℕ) → Type 0
Waits ps [] = ps ≡ []
Waits ps ((c, cs) ∷ rest) = (b : Bool) × (ps ≡ slot b c ∷ (map (slot true) cs ++ flat rest))

pub record Matches (s : Client) (t : Tmux) : Type 0 where
  pub same_start : s.guard_seen ≡ t.started
  pub waits : Waits s.pending t.running
  pub same_log : s.answered ≡ t.told

Waits-send :
    (ps : List Pending) (gs : List (ℕ × List ℕ)) (c : ℕ) (cs : List ℕ)
    → Waits ps gs
    → Waits (ps ++ slots (c ∷ cs)) (gs ++ (c, cs) ∷ [])
Waits-send ps [] c cs h =
    (false, rw h (ap (λ r. slot false c ∷ r) (sym (append-nil (map (slot true) cs)))))
Waits-send ps ((d, ds) ∷ gs) c cs (b, h) = (
  b,
  rw (h, flat-append gs c cs)
      (ap (λ r. slot b d ∷ r) (append_assoc (map (slot true) ds) (flat gs) (slots (c ∷ cs)))),
)

Waits-flat : (gs : List (ℕ × List ℕ)) → Waits (flat gs) gs
Waits-flat [] = refl
Waits-flat ((c, cs) ∷ gs) = (false, refl)

-- What one block does, by the sequences that tmux is running.
module _ (r : Reply) (s : Client) (t : Tmux) (start : s.guard_seen ≡ t.started)
    (log : s.answered ≡ t.told) where
  route-Matches :
      (ps : List Pending) (gs : List (ℕ × List ℕ))
      → Waits ps gs
      → s.pending ≡ ps
      → t.running ≡ gs
      → Matches (route r ps s) (run_block r gs t)
  unfolding run_block
  route-Matches ps [] w h k = rw w (
      unfold route in
      record {
        same_start = start;
        waits = subst (Waits s.pending) (sym k) (h ∙ w);
        same_log = log;
      })
  route-Matches ps ((c, []) ∷ rest) (b, w) h k =
      rw (w, route-last r b c rest s)
        (record {
          same_start = start;
          waits = Waits-flat rest;
          same_log = ap (λ l. l ++ (c, r) ∷ []) log;
        })
  route-Matches ps ((c, d ∷ cs) ∷ rest) (b, w) h k =
      if_cases (λ x. Matches (route r ps s) x) r.is_err
        (record t { running = rest; told = t.told ++ ((c, r) ∷ skipped (d ∷ cs)) })
        (record t { running = (d, cs) ∷ rest; told = t.told ++ (c, r) ∷ [] })
        (λ e.
          rw (w, route-error r b c (d ∷ cs) rest s e)
            (record {
              same_start = start;
              waits = Waits-flat rest;
              same_log = ap (λ l. l ++ ((c, r) ∷ skipped (d ∷ cs))) log;
            }))
        (λ o.
          rw (w, route-ok r (slot b c) (map (slot true) (d ∷ cs) ++ flat rest) s o)
            (record {
              same_start = start;
              waits = (true, refl);
              same_log = ap (λ l. l ++ (c, r) ∷ []) log;
            }))

guard-Matches :
    (r : Reply) (s : Client) (t : Tmux)
    → Matches s t
    → Matches (guard r s) (record t { started = true })
unfolding guard
guard-Matches r s t m =
    let seen = record s { guard_seen = true } in
    if_cases (λ x. Matches x (record t { started = true })) r.is_err
      (record seen { guard_err = join r.lines (codes " ") }) seen
      (λ _. record { same_start = refl; waits = m.waits; same_log = m.same_log })
      (λ _. record { same_start = refl; waits = m.waits; same_log = m.same_log })

if_rel {ℓ κ ι} :
    {A : Type ℓ} {B : Type κ} (R : A → B → Type ι) (b : Bool) (x y : A) (x' y' : B)
    → R x x'
    → R y y'
    → R (if b then x else y) (if b then x' else y')
if_rel R true x y x' y' h k = h
if_rel R false x y x' y' h k = k

block-Matches :
    (r : Reply) (s : Client) (t : Tmux)
    → Matches s t
    → Matches (complete_reply r s) (tmux_step (block r) t)
unfolding complete_reply tmux_step
block-Matches r s t m =
    subst
      (λ b.
        Matches (if b then route r s.pending s else guard r s)
          (if t.started then run_block r t.running t else record t { started = true }))
      (sym m.same_start)
      (if_rel Matches t.started (route r s.pending s) (guard r s) (run_block r t.running t)
        (record t { started = true })
        (route-Matches r s t m.same_start m.same_log s.pending t.running m.waits refl refl)
        (guard-Matches r s t m))

step-Matches : (e : Call) (s : Client) (t : Tmux) → Matches s t → Matches (step e s) (tmux_step e t)
unfolding step tmux_step
step-Matches (send c cs) s t m =
    unfold enqueue in
    record {
      same_start = m.same_start;
      waits = Waits-send s.pending t.running c cs m.waits;
      same_log = m.same_log;
    }
step-Matches (fail_to_send c cs) s t m = rw (rollback-enqueue c cs s) m
step-Matches (block r) s t m = block-Matches r s t m

run-Matches :
    (es : List Call) (s : Client) (t : Tmux) → Matches s t → Matches (run es s) (tmux_run es t)
unfolding run tmux_run
run-Matches [] s t m = m
run-Matches (e ∷ es) s t m = run-Matches es (step e s) (tmux_step e t) (step-Matches e s t m)

-- Whatever sequences are sent, are not written, or get an answer, in any order: each command has
-- been sent exactly the replies that tmux gave to it, or the notice that it was skipped, and those
-- that still wait are those that tmux has to answer, in the same order.
pub run-new_client-Matches : (es : List Call) → Matches (run es new_client) (tmux_run es new_tmux)
unfolding new_client new_tmux
run-new_client-Matches es =
    run-Matches es new_client new_tmux (record { same_start = refl; waits = refl; same_log = refl })
