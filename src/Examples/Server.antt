-- ===== src/Examples/Server.antt =====
-- internal/server at concrete inputs.
use mathlib.Core.Path.{subst, ap₂}
use shevet.Prelude.{
  ℕ, suc, zero, ◌+◌, ◌≡◌, refl, sym, ap, ◌∙◌, inl, inr, true, false, Option, none, some, List, [],
  ◌∷◌, ◌++◌, arith, ◌==◌, if◌then◌else◌, Bool-cases, All, ℤ, pos, negsuc, Bytes, codes, bytes_eq,
}
use shevet.Prelude.Decimal.{
  decimal, itoa, scan_digits, IsDigit, decimal-IsDigit, scan-decimal, decimal-cons, itoa-pos,
  itoa-negsuc,
}
use shevet.Prelude.Maps.{Entries, lookup, insert, lookup-insert_self, lookup-insert_ne}
use shevet.Grid.{Size, new, snapshot}
use shevet.Client.{new_view, watch}
use shevet.Pipeline.Subscribers.{Subscriber, sync_update, resize_update}
use shevet.Pipeline.Views.{view_after}
use shevet.Server.Relay.{relay, watch-relay_shows}
use shevet.Server.PaneLine.{parse_pane_line-decimal}
use shevet.Inject.{Commander}
use shevet.Server.Hub.{WatchedPane, Hub, new_pane}
use shevet.Server.Watcher.{ok, Ctl, Watcher}
use shevet.Server.Reconcile.{parse_pane_line, reconcile}
use shevet.Server.Run.{arrived, takes, Select, burst, resume_due, run}
use shevet.Server.Wakes.{NeverStops, Wakes}
use shevet.Server.Loop.{Awake, run-Awake}
use shevet.Server.Listed.{Mirrors, reconcile-Mirrors}
use shevet.Server.Service.{
  InputEvent, key_bytes, resize_request, restore_request, unknown_event, Stream, broken_stream,
  inject_event, send_input,
}
use shevet.Server.Sizes.{in_range, TmuxLaws, All-lookup}
use shevet.Server.Restored.{FreshAt, Fresh, send_input-restores}
use shevet.Tmuxctl.Parse.{output, pause, topology}

-- A tmux that answers every command with its one pane, and every capture with an empty screen.
abbrev one_pane : List Bytes
one_pane = codes "%1\t80\t24\tshell" ∷ []

abbrev answering : Ctl ℕ
answering = record {
  command = λ args t. (ok one_pane, t + 1);
  capture = λ a b t. (ok ([], codes "0\t0" ∷ [], t), t + 1);
}

answering-NeverStops : NeverStops ℕ answering
answering-NeverStops = record {
  command_goes = λ args t. ground arith;
  capture_goes = λ a b t. ground arith;
}

abbrev attached : Watcher ℕ
attached = record {
  tmux = 0;
  hub = [];
  registry = [];
  scheduled = [];
  closed_panes = [];
  is_done = false;
}

abbrev selects : List Select
selects =
    burst (arrived (topology (codes "%window-add @1")) ∷ []) false
    ∷ burst
        (arrived (output (codes "%1") (codes "ls") 8)
          ∷ takes (codes "%1")
          ∷ arrived (pause (codes "%1"))
          ∷ arrived (output (codes "%1") (codes "lost") 9)
          ∷ [])
        false
    ∷ resume_due 0
    ∷ []

empty-Wakes : Wakes attached.hub attached.scheduled
unfolding lookup
empty-Wakes id wp found paused = absurd (ground arith)

run-Awake_example : Awake (run answering (codes "main") selects attached)
run-Awake_example =
    run-Awake answering (codes "main") selects attached answering-NeverStops empty-Wakes

reconcile-Mirrors_example : Mirrors answering one_pane (reconcile answering (codes "main") attached)
reconcile-Mirrors_example = reconcile-Mirrors answering (codes "main") attached one_pane 1 refl

-- A tmux that keeps the sizes of its panes.
abbrev read_pos : Option ℕ → ℤ
read_pos none = pos 0
read_pos (some n) = pos n

abbrev read_neg : Option ℕ → ℤ
read_neg none = pos 0
read_neg (some zero) = pos 0
read_neg (some (suc n)) = negsuc n

parse_int : Bytes → ℤ
unfolding scan_digits
parse_int [] = pos 0
parse_int (c ∷ s) =
    let signed = read_neg (scan_digits 0 s) in
    let plain = read_pos (scan_digits 0 (c ∷ s)) in if c == 45 then signed else plain

resize_args : List Bytes → Entries Size → Entries Size
unfolding parse_int insert
resize_args (f ∷ id ∷ x ∷ c ∷ y ∷ r ∷ []) t =
    insert id (record { w = parse_int c; h = parse_int r }) t
resize_args _ t = t

sized : Commander (Entries Size)
unfolding resize_args bytes_eq
sized [] t = (none, t)
sized (cmd ∷ args) t =
    if bytes_eq cmd (codes "resize-window") then (none, resize_args args t) else (none, t)

parse_int-digit :
    (c : ℕ) (s : Bytes) → IsDigit c → parse_int (c ∷ s) ≡ read_pos (scan_digits 0 (c ∷ s))
unfolding parse_int
parse_int-digit c s d = rw (no_sign d) refl
  where
    no_sign : IsDigit c → (c == 45) ≡ false
    no_sign d = ground arith

parse_int-sign : (s : Bytes) → parse_int (45 ∷ s) ≡ read_neg (scan_digits 0 s)
unfolding parse_int
parse_int-sign s = refl

parse_int-itoa : (n : ℤ) → parse_int (itoa n) ≡ n
parse_int-itoa (pos n) =
    let (c, s, e) = decimal-cons n in
    ap parse_int (itoa-pos n ∙ e)
    ∙ (parse_int-digit c s (subst (All IsDigit) e (decimal-IsDigit n)).0
        ∙ ap read_pos (ap (scan_digits 0) (sym e) ∙ scan-decimal n))
parse_int-itoa (negsuc n) =
    ap parse_int (itoa-negsuc n)
    ∙ (parse_int-sign (decimal (n + 1)) ∙ (ap read_neg (scan-decimal (n + 1)) ∙ ground arith))

abbrev hub_of : Entries Size → Hub
hub_of [] = []
hub_of ((id, s) ∷ t) = (id, new_pane s.w s.h) ∷ hub_of t

abbrev shown : Option Size → Option WatchedPane
shown none = none
shown (some s) = some (new_pane s.w s.h)

lookup-hub_of : (id : Bytes) (t : Entries Size) → lookup id (hub_of t) ≡ shown (lookup id t)
unfolding lookup
lookup-hub_of id [] = refl
lookup-hub_of id ((j, s) ∷ t) = elim (Bool-cases (bytes_eq j id)) [
  | inl e ↦ rw e refl
  | inr e ↦ rw e (lookup-hub_of id t)
]

shown-some :
    (o : Option Size) (wp : WatchedPane)
    → shown o ≡ some wp
    → o ≡ some (record { w = wp.width; h = wp.height })
unfolding new_pane
shown-some none wp e = absurd (ground arith)
shown-some (some s) wp e = ground arith

shown-none : (o : Option Size) → shown o ≡ none → o ≡ none
shown-none none e = refl
shown-none (some s) e = absurd (ground arith)

size_in : Bytes → Entries Size → Option Size
unfolding lookup
size_in id t = lookup id t

abbrev still : Entries Size → Entries Size
still t = t

sized-TmuxLaws : TmuxLaws (Entries Size) sized hub_of still size_in
unfolding sized resize_args size_in
sized-TmuxLaws = record {
  sets = λ id w h t s r e.
      lookup-insert_self id (record { w = parse_int (itoa w); h = parse_int (itoa h) }) t
      ∙ ap₂ (λ a b. some (record { w = a; h = b })) (parse_int-itoa w) (parse_int-itoa h);
  keeps = λ id j w h t n.
      lookup-insert_ne id j (record { w = parse_int (itoa w); h = parse_int (itoa h) }) t n;
  types = λ j args t. refl;
  idle = λ j t. refl;
  there = λ id wp t e. (
    record { w = wp.width; h = wp.height },
    shown-some (lookup id t) wp (sym (lookup-hub_of id t) ∙ e),
  );
  misses = λ id t e. shown-none (lookup id t) (sym (lookup-hub_of id t) ∙ e);
}

abbrev sizes : Entries Size
sizes =
    (codes "%1", record { w = pos 80; h = pos 24 })
    ∷ (codes "%2", record { w = pos 60; h = pos 20 })
    ∷ []

-- Typing, two resizes of one pane and one of the other, and one way back.
abbrev inputs : List InputEvent
inputs =
    key_bytes (codes "%1") (codes "ls")
    ∷ resize_request (codes "%1") 120 40
    ∷ resize_request (codes "%1") 100 30
    ∷ resize_request (codes "%2") 100 30
    ∷ restore_request (codes "%2")
    ∷ []

abbrev AllPositive : Entries Size → Type 0
AllPositive = All (λ e. in_range e.1.w e.1.h ≡ true)

lookup-AllPositive :
    (id : Bytes) (s : Size) (m : Entries Size)
    → AllPositive m
    → lookup id m ≡ some s
    → in_range s.w s.h ≡ true
lookup-AllPositive id s m h e = All-lookup (λ e. in_range e.1.w e.1.h ≡ true) id s m h e

-- This hub shows at each event what tmux has.
mirrored-FreshAt :
    (ev : InputEvent) (s : Stream (Entries Size))
    → FreshAt sized hub_of still size_in sized-TmuxLaws sizes ev s
unfolding size_in
mirrored-FreshAt (key_bytes id data') s = tt
mirrored-FreshAt (resize_request id w h) s =
    λ wp e _. shown-some (lookup id s.tmux) wp (sym (lookup-hub_of id s.tmux) ∙ e)
mirrored-FreshAt (restore_request id) s = tt
mirrored-FreshAt unknown_event s = tt

mirrored-Fresh :
    (evs : List InputEvent) (s : Stream (Entries Size))
    → Fresh sized hub_of still size_in sized-TmuxLaws sizes evs s
unfolding Fresh
mirrored-Fresh [] s = tt
mirrored-Fresh (ev ∷ evs) s =
    (mirrored-FreshAt ev s, mirrored-Fresh evs (inject_event (some sized) (hub_of s.tmux) ev s).1)

send_input-restores_example :
    size_in
      (codes "%1")
      (send_input
        (some sized)
        (some sized)
        hub_of
        still
        (broken_stream (codes "reset"))
        inputs
        sizes).1.tmux
    ≡ size_in (codes "%1") sizes
unfolding size_in
send_input-restores_example =
    send_input-restores sized sized hub_of still size_in sized-TmuxLaws sized-TmuxLaws
      (broken_stream (codes "reset")) inputs sizes (codes "%1")
      (λ id s. lookup-AllPositive id s sizes (refl, (refl, tt)))
      (mirrored-Fresh inputs (record { tmux = sizes; saved = []; events = 0; bytes = 0 }))

-- A subscriber of a Pane of one cell that has exited.
abbrev last_reader : Subscriber
last_reader = record {
  key = 1;
  received =
      sync_update (new (pos 1) (pos 1)) (record { x = pos 0; y = pos 0; hidden = false }) ∷ [];
  queue = resize_update (pos 2) (pos 1) ∷ [];
  exited = true;
  lagged = false;
}

watch-relay_shows_example :
    watch new_view (relay (last_reader.received ++ last_reader.queue) last_reader.exited)
    ≡ some (record (view_after last_reader) { exited = last_reader.exited })
unfolding sync_update resize_update new snapshot
watch-relay_shows_example = watch-relay_shows last_reader (
  (
    ((refl, ground arith), (refl, ground arith)),
    (tt, ((refl, ground arith), (refl, ground arith))),
  ),
  ((((refl, ground arith), (refl, ground arith)), tt), tt),
)

parse_pane_line-decimal_example :
    parse_pane_line (
      codes "%1"
      ++ (codes "\t"
          ++ (decimal 80 ++ (codes "\t" ++ (decimal 24 ++ (codes "\t" ++ codes "my shell"))))))
    ≡ ok (record { id = codes "%1"; width = pos 80; height = pos 24; title = codes "my shell" })
parse_pane_line-decimal_example =
    parse_pane_line-decimal (codes "%1") (codes "my shell") 80 24 (ground arith) (omega arith)
      (omega arith) (omega arith) (omega arith)
