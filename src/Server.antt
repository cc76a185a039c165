-- ===== src/Server.antt =====
-- internal/server: the Server's panes, the tmux watcher, and the services on them.
pub mod Hub
pub mod Watcher
pub mod Reconcile
pub mod Run
pub mod Wakes
pub mod Resume
pub mod Loop
pub mod Aligned
pub mod Listed
pub mod Service
pub mod Sizes
pub mod Socket
pub mod Origins
pub mod Restored
pub mod Relay
pub mod PaneLine
