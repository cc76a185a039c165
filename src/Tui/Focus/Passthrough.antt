-- ===== src/Tui/Focus/Passthrough.antt =====
-- internal/tui/model.go: whoever types into a Pane has an input queue that takes it.
use mathlib.Core.Path.{subst}
use shevet.Prelude.{
  ℕ, ◌≡◌, refl, sym, ◌∙◌, inl, inr, true, Option, none, some, [], ◌∷◌, ◌==◌, if_cases, Bytes,
  bytes_eq, bytes_eq_refl,
}
use shevet.Prelude.Maps.{
  Entries, lookup, insert, delete, bytes_ne, bytes_cases, lookup-insert_self, lookup-insert_ne,
  lookup-delete_ne,
}
use shevet.Grid.{Size}
use shevet.Tui.Focus.{
  PaneRef, InputReq, send_keys, send_resize, InputConn, Focus, stalled_input, send, retire,
  leave_host, drop_input, sent, request, queue_resize, unfocus_from, type_into, open_input,
  focus_on, input_failed_of,
}

unfoldable pub resize_focused : Option PaneRef → Size → Focus → Focus
unfolding queue_resize
resize_focused none size m = m
resize_focused (some ref) size m = queue_resize ref size m

-- The focused Pane's host has an input queue.
abbrev pub Ready : Option PaneRef → Entries InputConn → Type 0
Ready none inputs = Unit {0}
Ready (some ref) inputs = (c : InputConn) × (lookup ref.host inputs ≡ some c)

abbrev ReadyFor : Focus → Type 0
ReadyFor m = Ready m.focus m.inputs

Ready-delete :
    (host : Bytes) (f : Option PaneRef) (inputs : Entries InputConn)
    → Ready f inputs
    → Ready (leave_host host f) (delete host inputs)
Ready-delete host none inputs h = tt
Ready-delete host (some ref) inputs (c, h) = elim (bytes_cases ref.host host) [
  | inl same ↦ rw (subst (λ x. bytes_eq ref.host x ≡ true) same (bytes_eq_refl ref.host)) tt
  | inr other ↦
      rw (bytes_ne ref.host host other)
        (c, lookup-delete_ne host ref.host inputs (λ e. other (sym e)) ∙ h)
]

Ready-leave :
    (host : Bytes) (f : Option PaneRef) (inputs : Entries InputConn)
    → Ready f inputs
    → Ready (leave_host host f) inputs
Ready-leave host none inputs h = tt
Ready-leave host (some ref) inputs h =
    if_cases (λ f. Ready f inputs) (bytes_eq ref.host host) none (some ref) (λ _. tt) (λ _. h)

Ready-insert :
    (host : Bytes) (c : InputConn) (f : Option PaneRef) (inputs : Entries InputConn)
    → Ready f inputs
    → Ready f (insert host c inputs)
Ready-insert host c none inputs h = tt
Ready-insert host c (some ref) inputs (d, h) = elim (bytes_cases host ref.host) [
  | inl same ↦ (
    c,
    subst (λ x. lookup x (insert host c inputs) ≡ some c) same (lookup-insert_self host c inputs),
  )
  | inr other ↦ (d, lookup-insert_ne host ref.host c inputs other ∙ h)
]

drop_input-Ready : (host err : Bytes) (m : Focus) → ReadyFor m → ReadyFor (drop_input host err m)
unfolding drop_input
drop_input-Ready host err m h = go (lookup host m.inputs)
  where
    failed : Focus
    failed = record m { input_errs = insert host err m.input_errs }

    go :
        (o : Option InputConn)
        → ReadyFor (record (retire o host failed) { focus = leave_host host m.focus })
    go none = unfold retire in Ready-leave host m.focus m.inputs h
    go (some c) = unfold retire in Ready-delete host m.focus m.inputs h

sent-Ready :
    (host : Bytes) (o : Option InputConn) (m : Focus) → ReadyFor m → ReadyFor (sent host o m)
unfolding sent
sent-Ready host none m h = drop_input-Ready host stalled_input m h
sent-Ready host (some c) m h = Ready-insert host c m.focus m.inputs h

request-Ready :
    (host : Bytes) (req : InputReq) (o : Option InputConn) (m : Focus)
    → ReadyFor m
    → ReadyFor (request host req o m)
unfolding request
request-Ready host req none m h = h
request-Ready host req (some c) m h = sent-Ready host (send req c) m h

pub unfocus_from-Ready : (f : Option PaneRef) (m : Focus) → ReadyFor m → ReadyFor (unfocus_from f m)
unfolding unfocus_from
unfocus_from-Ready none m h = h
unfocus_from-Ready (some ref) m h = tt

pub type_into-Ready :
    (f : Option PaneRef) (data' : Bytes) (m : Focus) → ReadyFor m → ReadyFor (type_into f data' m)
unfolding type_into
type_into-Ready none data' m h = h
type_into-Ready (some ref) [] m h = h
type_into-Ready (some ref) (b ∷ data') m h =
    request-Ready ref.host (send_keys ref.id (b ∷ data')) (lookup ref.host m.inputs) m h

open_input-Ready :
    (ref : PaneRef) (o : Option InputConn) (m : Focus)
    → lookup ref.host m.inputs ≡ o
    → m.focus ≡ some ref
    → ReadyFor (open_input ref.host o m).1
unfolding open_input
open_input-Ready ref (some c) m e f = subst (λ f. Ready f m.inputs) (sym f) (c, e)
open_input-Ready ref none m e f =
    let c : InputConn = record { gen = m.next_gen; queue = [] } in
    subst (λ f. Ready f (insert ref.host c m.inputs)) (sym f)
      (c, lookup-insert_self ref.host c m.inputs)

pub focus_on-Ready : (ref : PaneRef) (size : Size) (m : Focus) → ReadyFor (focus_on ref size m)
unfolding focus_on
focus_on-Ready ref size m =
    let m' : Focus = record m { focus = some ref } in
    let r = open_input ref.host (lookup ref.host m.inputs) m' in
    sent-Ready ref.host (send (send_resize ref.id size) r.0) r.1
      (open_input-Ready ref (lookup ref.host m.inputs) m' refl refl)

pub input_failed_of-Ready :
    (o : Option InputConn) (host : Bytes) (gen : ℕ) (err : Bytes) (m : Focus)
    → ReadyFor m
    → ReadyFor (input_failed_of o host gen err m)
unfolding input_failed_of
input_failed_of-Ready none host gen err m h = h
input_failed_of-Ready (some c) host gen err m h =
    if_cases ReadyFor (c.gen == gen) (drop_input host err m) m (λ _. drop_input-Ready host err m h)
      (λ _. h)

pub resize_focused-Ready :
    (f : Option PaneRef) (size : Size) (m : Focus) → ReadyFor m → ReadyFor (resize_focused f size m)
unfolding resize_focused queue_resize
resize_focused-Ready none size m h = h
resize_focused-Ready (some ref) size m h =
    request-Ready ref.host (send_resize ref.id size) (lookup ref.host m.inputs) m h
