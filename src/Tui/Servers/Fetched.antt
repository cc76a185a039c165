-- ===== src/Tui/Servers/Fetched.antt =====
-- internal/tui/model.go: no two Panes of the Herd that is fetched over several connections share a
-- reference.
use mathlib.Core.Path.{subst}
use shevet.Prelude.{
  ℕ, ◌≡◌, refl, sym, ap, ◌≢◌, ◌⊎◌, inl, inr, List, [], ◌∷◌, ◌++◌, arith, All, All-append, All-mono,
  Bytes, codes,
}
use shevet.Wire.{Pane}
use shevet.Tui.Focus.{PaneRef}
use shevet.Tui.Dashboard.{RefPane, pane_ref, Server, panes_loaded, load_failed}
use shevet.Tui.Servers.{
  accepted, new_servers, Listing, failed, listed, tag, fetch_from, fetch_panes_cmd,
}
use shevet.Tui.Servers.Distinct.{Distinct, aliases, new_servers-accepted}

abbrev pub ids : List Pane → List Bytes
ids [] = []
ids (p ∷ ps) = p.id ∷ ids ps

abbrev pub refs : List RefPane → List PaneRef
refs [] = []
refs (p ∷ ps) = pane_ref p ∷ refs ps

-- The hosts of some Panes are none of these aliases.
abbrev Outside : List Bytes → RefPane → Type 0
Outside as' p = All (λ a. p.host ≢ a) as'

abbrev Elsewhere : List Bytes → List RefPane → Type 0
Elsewhere as' = All (Outside as')

Listing-cases :
    (o : Listing) → ((e : Bytes) × (o ≡ failed e)) ⊎ ((ps : List Pane) × (o ≡ listed ps))
Listing-cases (failed e) = inl (e, refl)
Listing-cases (listed ps) = inr (ps, refl)

tag-fresh :
    (host : Bytes) (r : PaneRef) (ps : List Pane)
    → r.host ≢ host
    → All (λ q. r ≢ q) (refs (tag host ps))
unfolding tag
tag-fresh host r [] n = tt
tag-fresh host r (p ∷ ps) n = (λ e. n (ap (λ (q : PaneRef). q.host) e), tag-fresh host r ps n)

tag-Distinct : (host : Bytes) (ps : List Pane) → Distinct (ids ps) → Distinct (refs (tag host ps))
unfolding tag
tag-Distinct host [] d = tt
tag-Distinct host (p ∷ ps) d = (apart ps d.0, tag-Distinct host ps d.1)
  where
    apart :
        (qs : List Pane)
        → All (λ i. p.id ≢ i) (ids qs)
        → All (λ q. pane_ref (record { host = host; pane = p }) ≢ q) (refs (tag host qs))
    apart [] h = tt
    apart (q ∷ qs) h = (λ e. h.0 (ap (λ (x : PaneRef). x.id) e), apart qs h.1)

refs-append : (ps qs : List RefPane) → refs (ps ++ qs) ≡ refs ps ++ refs qs
refs-append [] qs = refl
refs-append (p ∷ ps) qs = ap (λ r. pane_ref p ∷ r) (refs-append ps qs)

append-Distinct :
    (host : Bytes) (all : List RefPane) (ps : List Pane)
    → Distinct (refs all)
    → All (λ (p : RefPane). p.host ≢ host) all
    → Distinct (ids ps)
    → Distinct (refs (all ++ tag host ps))
append-Distinct host [] ps d n i = tag-Distinct host ps i
append-Distinct host (p ∷ all) ps d n i = (
  subst (All (λ q. pane_ref p ≢ q)) (sym (refs-append all (tag host ps))) (
      All-append (λ q. pane_ref p ≢ q) (refs all) (refs (tag host ps)) d.0
        (tag-fresh host (pane_ref p) ps n.0)),
  append-Distinct host all ps d.1 n.1 i,
)

tag-Elsewhere :
    (host : Bytes) (as' : List Bytes) (ps : List Pane)
    → All (λ a. host ≢ a) as'
    → Elsewhere as' (tag host ps)
unfolding tag
tag-Elsewhere host as' [] h = tt
tag-Elsewhere host as' (p ∷ ps) h = (h, tag-Elsewhere host as' ps h)

-- Each server lists Panes with different ids.
abbrev pub ListsDistinct : Listing → Type 0
ListsDistinct (failed e) = Unit
ListsDistinct (listed ps) = Distinct (ids ps)

loaded : (all panes : List RefPane) → panes_loaded all ≡ panes_loaded panes → all ≡ panes
loaded all panes h = cc

fetch_from-Distinct :
    (answer : ℕ → Listing) (ss : List Server) (all panes : List RefPane)
    → ((conn : ℕ) → ListsDistinct (answer conn))
    → Distinct (aliases ss)
    → Distinct (refs all)
    → Elsewhere (aliases ss) all
    → fetch_from answer ss all ≡ panes_loaded panes
    → Distinct (refs panes)
unfolding fetch_from
fetch_from-Distinct answer [] all panes l a d e h =
    subst (λ x. Distinct (refs x)) (loaded all panes h) d
fetch_from-Distinct answer (s ∷ ss) all panes l a d e h = elim (Listing-cases (answer s.conn)) [
  | inl (x, p) ↦ absurd (clash x (rw (p, fetch_from) at h))
  | inr (ps, p) ↦
      fetch_from-Distinct answer ss (all ++ tag s.alias ps) panes l a.1
        (append-Distinct s.alias all ps d
          (All-mono (Outside (aliases (s ∷ ss))) (λ (q : RefPane). q.host ≢ s.alias) all
            (λ q k. k.0) e)
          (subst ListsDistinct p (l s.conn)))
        (All-append (Outside (aliases ss)) all (tag s.alias ps)
          (All-mono (Outside (aliases (s ∷ ss))) (Outside (aliases ss)) all (λ q k. k.1) e)
          (tag-Elsewhere s.alias (aliases ss) ps a.0))
        (rw (p, fetch_from) at h)
]
  where
    clash :
        (x : Bytes)
        → load_failed (codes "host " ++ (s.alias ++ (codes ": " ++ x))) ≡ panes_loaded panes
        → ⊥
    clash x q = absurd (ground arith)

-- If `NewServers` accepts the servers, and each of them lists Panes with different ids, then no two
-- Panes of the Herd that is fetched from them have one reference, also where their ids are the same.
pub fetch_panes_cmd-Distinct :
    (answer : ℕ → Listing) (ss : List Server) (panes : List RefPane)
    → new_servers ss ≡ accepted ss
    → ((conn : ℕ) → ListsDistinct (answer conn))
    → fetch_panes_cmd answer ss ≡ panes_loaded panes
    → Distinct (refs panes)
unfolding fetch_panes_cmd
fetch_panes_cmd-Distinct answer ss panes h l f =
    fetch_from-Distinct answer ss [] panes l ((new_servers-accepted ss).0 h).1 tt tt f
