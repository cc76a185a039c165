-- ===== src/Tui.antt =====
-- internal/tui: the dashboard's geometry, its selection and its focus.
pub mod Layout
pub mod Selection
pub mod Focus
pub mod Card
pub mod Dashboard
pub mod Forward
pub mod Servers
pub mod Render
pub mod Keys
