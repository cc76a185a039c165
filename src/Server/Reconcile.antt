-- ===== src/Server/Reconcile.antt =====
-- internal/server/watcher.go: the reconcile with tmux's list of panes, and the loop of `run`.
use shevet.Prelude.{
  Bool, true, not, ◌&&◌, ◌||◌, Option, none, some, List, [], ◌∷◌, ◌++◌, if◌then◌else◌, ℤ, pos,
  ltb_ℤ, eqb_ℤ, Bytes, codes, cut_at,
}
use shevet.Prelude.Maps.{lookup}
use shevet.Server.Hub.{WatchedPane, new_pane, sweep, close_all, post}
use shevet.Server.Watcher.{
  malformed_line, malformed_geometry, implausible_geometry, Answer, ok, failed, stopped, Ctl,
  Watcher, scan_pair, put, seed,
}
use shevet.Pipeline.{resize_to}
use shevet.Wire.{Pane}

-- `paneInfo`
pub record PaneInfo : Type 0 where
  pub id : Bytes
  pub width : ℤ
  pub height : ℤ
  pub title : Bytes

-- `strings.SplitN(line, "\t", 4)` with four parts.
abbrev pub last_part :
    Bytes → Bytes → Option (Bytes × Bytes) → Option (Bytes × Bytes × Bytes × Bytes)
last_part id w none = none
last_part id w (some (h, title)) = some (id, w, h, title)

unfoldable pub third_part : Bytes → Option (Bytes × Bytes) → Option (Bytes × Bytes × Bytes × Bytes)
unfolding cut_at
third_part id none = none
third_part id (some (w, rest)) = last_part id w (cut_at (codes "\t") rest)

unfoldable pub second_part : Option (Bytes × Bytes) → Option (Bytes × Bytes × Bytes × Bytes)
unfolding third_part cut_at
second_part none = none
second_part (some (id, rest)) = third_part id (cut_at (codes "\t") rest)

unfoldable pub four_parts : Bytes → Option (Bytes × Bytes × Bytes × Bytes)
unfolding second_part cut_at
four_parts line = second_part (cut_at (codes "\t") line)

-- `maxPaneDim`
abbrev pub max_pane_dim : ℤ
max_pane_dim = pos 16384

unfoldable pub check_geometry : Bytes → Bytes → Bytes → Option ℤ × Option ℤ → Answer PaneInfo
check_geometry line id title (some w, some h) =
    if not (ltb_ℤ (pos 0) w)
      || not (ltb_ℤ (pos 0) h)
      || ltb_ℤ max_pane_dim w
      || ltb_ℤ max_pane_dim h
    then failed (implausible_geometry w h line)
    else ok (record { id = id; width = w; height = h; title = title })
check_geometry line id title (some w, none) = failed (malformed_geometry line)
check_geometry line id title (none, h) = failed (malformed_geometry line)

unfoldable pub check_parts : Bytes → Option (Bytes × Bytes × Bytes × Bytes) → Answer PaneInfo
unfolding check_geometry scan_pair
check_parts line none = failed (malformed_line line)
check_parts line (some (id, w, h, title)) =
    check_geometry line id title (scan_pair (w ++ (codes " " ++ h)))

-- `parsePaneLine`
unfoldable pub parse_pane_line : Bytes → Answer PaneInfo
unfolding check_parts four_parts
parse_pane_line line = check_parts line (four_parts line)

unfoldable pub resized : ℤ → ℤ → WatchedPane → WatchedPane
unfolding post
resized w h wp = record wp { width = w; height = h; pipe = post (resize_to w h) wp.pipe }

abbrev pub list_words : Bytes → List Bytes
list_words session =
    codes "list-panes"
    ∷ codes "-s"
    ∷ codes "-t"
    ∷ (codes "=" ++ session)
    ∷ codes "-F"
    ∷ codes
        "#{pane_id}\t#{pane_width}\t#{pane_height}\t#{?#{!=:#{pane_title},#{host}},#{pane_title},#{window_name}}"
    ∷ []

abbrev pub same_size : WatchedPane → PaneInfo → Bool
same_size wp info = eqb_ℤ wp.width info.width && eqb_ℤ wp.height info.height

module _ {W : Type 0} (ctl : Ctl W) where
  -- A pane of the list: it is new, or its size changed, or nothing is to be done.
  unfoldable pub align : PaneInfo → Option WatchedPane → Watcher W → Answer WatchedPane × Watcher W
  unfolding new_pane put seed resized
  align info none w =
      let wp = new_pane info.width info.height in seed ctl info.id wp (put ctl info.id wp w)
  align info (some wp) w =
      let wp' = resized info.width info.height wp in
      let moved = seed ctl info.id wp' (put ctl info.id wp' w) in
      if same_size wp info then (ok wp, w) else moved

  unfoldable pub aligned : PaneInfo → Answer WatchedPane × Watcher W → Answer PaneInfo × Watcher W
  aligned info (ok wp, w) = (ok info, w)
  aligned info (failed e, w) = (failed e, w)
  aligned info (stopped, w) = (stopped, w)

  unfoldable pub then_align : Answer PaneInfo → Watcher W → Answer PaneInfo × Watcher W
  unfolding align aligned lookup
  then_align (failed e) w = (failed e, w)
  then_align stopped w = (stopped, w)
  then_align (ok info) w = aligned info (align info (lookup info.id w.hub) w)

  unfoldable pub next_line :
      Answer PaneInfo × Watcher W
      → (Pane → Watcher W → Answer (List Pane) × Watcher W)
      → Answer (List Pane) × Watcher W
  next_line (ok info, w) next = next (record { id = info.id; title = info.title }) w
  next_line (failed e, w) next = (failed e, w)
  next_line (stopped, w) next = (stopped, w)

  -- The loop of `reconcile` over the lines; `panes` are those of the lines read so far.
  unfoldable pub reconcile_lines :
      List Bytes → List Pane → Watcher W → Answer (List Pane) × Watcher W
  unfolding then_align next_line parse_pane_line
  reconcile_lines [] panes w = (ok panes, w)
  reconcile_lines (line ∷ ls) panes w =
      next_line (then_align (parse_pane_line line) w) (λ p. reconcile_lines ls (panes ++ p ∷ []))

  unfoldable pub settle : Answer (List Pane) × Watcher W → Answer (List Pane) × Watcher W
  unfolding sweep close_all
  settle (failed e, w) = (failed e, w)
  settle (stopped, w) = (stopped, w)
  settle (ok panes, w) =
      let (kept, gone) = sweep panes w.hub in
      (
        ok panes,
        record w {
          hub = kept;
          closed_panes = w.closed_panes ++ close_all true gone;
          registry = panes;
        },
      )

  unfoldable pub after_list : Answer (List Bytes) × W → Watcher W → Answer (List Pane) × Watcher W
  unfolding reconcile_lines settle
  after_list (ok lines, t) w = settle (reconcile_lines lines [] (record w { tmux = t }))
  after_list (failed e, t) w = (failed e, record w { tmux = t })
  after_list (stopped, t) w = (stopped, record w { tmux = t })

  -- `reconcile`
  unfoldable pub reconcile : Bytes → Watcher W → Answer (List Pane) × Watcher W
  unfolding after_list
  reconcile session w = after_list (ctl.command (list_words session) w.tmux) w
