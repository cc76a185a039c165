-- ===== src/Examples.antt =====
-- Tests of the model on concrete inputs, and the theorems at inputs that meet their hypotheses.
mod Inject
mod Grid
mod Pipeline
mod Tmux
mod Server
mod Sockets
mod Screens
mod Tui
mod Dashboard
mod Hosts
mod Ssh
