-- ===== src/Tui/Focus/Narrows.antt =====
-- internal/tui/model.go: no function on the focus and the input queues but `focusSelected` takes the
-- focus to another Pane.
use mathlib.Core.Path.{subst}
use shevet.Prelude.{
  ℕ, ◌≡◌, refl, ◌⊎◌, inl, inr, Option, none, some, [], ◌∷◌, ◌==◌, if_cases, Bytes, bytes_eq,
}
use shevet.Prelude.Maps.{lookup}
use shevet.Grid.{Size}
use shevet.Tui.Focus.{
  PaneRef, InputReq, send_keys, send_resize, InputConn, Focus, stalled_input, send, leave_host,
  drop_input, sent, request, queue_resize, unfocus_from, type_into, open_input, focus_on,
  input_failed_of, input_failed,
}
use shevet.Tui.Focus.Passthrough.{resize_focused}

-- The focus of one state is that of another, or none.
abbrev pub Narrows : Option PaneRef → Option PaneRef → Type 0
Narrows before after = (after ≡ before) ⊎ (after ≡ none)

leave_host-Narrows : (host : Bytes) (f : Option PaneRef) → Narrows f (leave_host host f)
leave_host-Narrows host none = inl refl
leave_host-Narrows host (some ref) =
    if_cases (Narrows (some ref)) (bytes_eq ref.host host) none (some ref) (λ _. inr refl)
      (λ _. inl refl)

drop_input-Narrows : (host err : Bytes) (m : Focus) → Narrows m.focus (drop_input host err m).focus
unfolding drop_input
drop_input-Narrows host err m = leave_host-Narrows host m.focus

sent-Narrows :
    (host : Bytes) (o : Option InputConn) (m : Focus) → Narrows m.focus (sent host o m).focus
unfolding sent
sent-Narrows host none m = drop_input-Narrows host stalled_input m
sent-Narrows host (some c) m = inl refl

request-Narrows :
    (host : Bytes) (req : InputReq) (o : Option InputConn) (m : Focus)
    → Narrows m.focus (request host req o m).focus
unfolding request
request-Narrows host req none m = inl refl
request-Narrows host req (some c) m = sent-Narrows host (send req c) m

pub unfocus_from-none :
    (f : Option PaneRef) (m : Focus) → m.focus ≡ f → (unfocus_from f m).focus ≡ none
unfolding unfocus_from
unfocus_from-none none m h = h
unfocus_from-none (some ref) m h = refl

pub type_into-Narrows :
    (f : Option PaneRef) (keys : Bytes) (m : Focus) → Narrows m.focus (type_into f keys m).focus
unfolding type_into
type_into-Narrows none keys m = inl refl
type_into-Narrows (some ref) [] m = inl refl
type_into-Narrows (some ref) (b ∷ keys) m =
    request-Narrows ref.host (send_keys ref.id (b ∷ keys)) (lookup ref.host m.inputs) m

pub resize_focused-Narrows :
    (f : Option PaneRef) (size : Size) (m : Focus) → Narrows m.focus (resize_focused f size m).focus
unfolding resize_focused queue_resize
resize_focused-Narrows none size m = inl refl
resize_focused-Narrows (some ref) size m =
    request-Narrows ref.host (send_resize ref.id size) (lookup ref.host m.inputs) m

pub input_failed-Narrows :
    (host : Bytes) (gen : ℕ) (err : Bytes) (m : Focus)
    → Narrows m.focus (input_failed host gen err m).focus
unfolding input_failed input_failed_of
input_failed-Narrows host gen err m = failed (lookup host m.inputs)
  where
    failed : (o : Option InputConn) → Narrows m.focus (input_failed_of o host gen err m).focus
    failed none = inl refl
    failed (some c) =
        if_cases (λ (x : Focus). Narrows m.focus x.focus) (c.gen == gen) (drop_input host err m) m
          (λ _. drop_input-Narrows host err m) (λ _. inl refl)

open_input-focus :
    (host : Bytes) (o : Option InputConn) (m : Focus) → (open_input host o m).1.focus ≡ m.focus
unfolding open_input
open_input-focus host none m = refl
open_input-focus host (some c) m = refl

pub focus_on-Narrows :
    (ref : PaneRef) (size : Size) (m : Focus) → Narrows (some ref) (focus_on ref size m).focus
unfolding focus_on
focus_on-Narrows ref size m =
    let m' : Focus = record m { focus = some ref } in
    let r = open_input ref.host (lookup ref.host m.inputs) m' in
    subst (λ f. Narrows f (focus_on ref size m).focus)
      (open_input-focus ref.host (lookup ref.host m.inputs) m')
      (sent-Narrows ref.host (send (send_resize ref.id size) r.0) r.1)
