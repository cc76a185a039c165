-- ===== src/Tmuxctl.antt =====
-- internal/tmuxctl: the control-mode attachment to tmux.
pub mod Parse
pub mod Version
pub mod Channel
pub mod Quote
