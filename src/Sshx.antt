-- ===== src/Sshx.antt =====
-- internal/sshx: the SSH configuration of a Host.
pub mod Config
pub mod Shell
pub mod Dial
