-- ===== src/Lib.antt =====
-- Shevet keeps a Server on each Host, which watches the panes of one tmux session, and a Client
-- with a dashboard of the Panes of several Servers. This library models the program's own logic and
-- proves it; what it stands on (tmux, the terminal emulator, gRPC, SSH, the terminal UI) is outside.
--
-- How the parts interact. tmux runs in control mode under internal/tmuxctl: lines that it writes
-- become events and replies, commands are written to it as quoted lines, and a queue matches each
-- reply to the command that waits for it. The watcher of internal/server drives it: events change
-- the panes of the hub, whose output goes to one render pipeline for each pane; a list of panes,
-- asked for after a change of topology, realigns the hub and the registry. A pipeline writes output
-- to an emulator, flushes what changed on a timer, and fans updates out to its subscribers, which
-- the service sends to Clients as the messages of internal/wire. A Client applies them to a view.
-- The other way, a Client's input stream reaches the service, which injects keys into tmux by
-- internal/inject and resizes panes, and gives the sizes back when the stream ends.
--
-- Which file models which part:
--   Inject (internal/inject/inject.go): `Keys` is `keys`, its loop over runs `keys_loop`, `Resize`
--     is `resize`; a `Commander` is a state-passing function of a command's words. Inject/Runs says
--     what the runs are, Inject/Delivery what tmux types into the pane.
--   Grid (internal/grid/grid.go): `New`, `At`, `Set`, `Apply`, `Resize`, `Snapshot` and `Diff`; a
--     grid is its size and its cells in row order, and a `Diff` that panics is `none`.
--   Wire (internal/wire/wire.go, internal/herd/herd.go): the conversions to and from messages, with
--     the wrap-around of uint32.
--   Client (internal/client/client.go): `PaneWatch.Recv` is `recv`, `PaneView.Apply` is
--     `apply_update`. Client/Input: the sends of `InputStream`.
--   Emu (internal/emu/emu.go): the interface `Emulator` and the laws that its comments state;
--     Emu/Adapter: the adapter of the terminal library, which is a parameter. `Snapshot` is
--     `take_snapshot`, and the callback's calls are what a write returns beside the screen.
--   Pipeline (internal/server/pipeline.go): `run` is `step` over events, with `flush`, `fan_out`,
--     `control` and `run_burst` for the parts of its body; Pipeline/Subscribers is what is done to
--     one subscriber. The select of Go is a sequence of events in any order.
--   Tmuxctl/Parse (internal/tmuxctl/parse.go, events.go): `feed`, `replyEnd`, `decodeOutput`, and
--     so on; Tmuxctl/Quote, Tmuxctl/Channel and Tmuxctl/Version (internal/tmuxctl/client.go): the
--     quoting of commands, the queue of waiting commands, the loop of the reader, and the check of
--     the version. A waiting command is a number, and the replies sent to it are a log.
--   Server/Hub (internal/server/watcher.go, pipeline.go): the hub's panes, and a pipeline as those
--     see it that post to it. Server/Watcher, Server/Reconcile, Server/Run
--     (internal/server/watcher.go): `apply`, `pausePane`, `resumePane`, `seed`, `reconcile`, `run`
--     and `teardown`. A timer that is to resume a pane is an entry of a list. An answer of tmux is
--     `stopped` where the code finds its context done.
--   Server/Service (internal/server/service.go): the Control Input stream, with `injectEvent`, its
--     handlers, its ends, and `restoreAll`, over all that is outside of the stream; Server/Relay:
--     `sendUpdate` and what WatchPane sends of a channel that closes. A map is a list of entries, and its first entry of a key counts.
--   Server/Socket (internal/server/server.go): `Listen`, `listenUnix`, `clearStaleSocket`, `Serve` and
--     `Run` over what stands at the socket's path and the system calls that fail; one `listenUnix`
--     is one step, so that two Servers do not start between each other's calls. Socket/Many runs
--     several Servers, whose close of the listener and removal of the file are two steps.
--   Tui/Layout (internal/tui/layout.go): `layoutCards` and `rowOffset`; Tui/Selection
--     (internal/tui/model.go): `moveSelection`; Tui/Focus (internal/tui/model.go): the focus and
--     the input queues, `dropInput`, `unfocus`, `queueResize`. Tui/Keys (internal/tui/keys.go):
--     `encodeKey`. Tui/Dashboard (internal/tui/model.go): the model and its messages, with `Update`,
--     `handleKey` and `focusSelected` in Tui/Dashboard/Update and `applyHerd` in
--     Tui/Dashboard/Herd; Tui/Servers: `NewServers` and `fetchPanesCmd`; Tui/Forward:
--     `forwardInputCmd`, whose select is a sequence of turns. Tui/Render (internal/tui/render.go):
--     `renderRegion` as what it writes to its builder. Tui/Card (internal/tui/view.go):
--     `renderCard` with its borders and body, and `cardsView`, over the styling library.
--   Sshx/Config (internal/sshx/config.go): `parseConfig` over what `ssh -G` prints, and
--     `ResolveConfig` with ssh as a function of its arguments. Sshx/Dial (internal/sshx/dial.go):
--     `Dial`, its signers and its host key callback, with the agent, the files, the network and the
--     handshake as parameters; Sshx/Shell (internal/sshx/channel.go): `shellQuote`.
--     Client/Transport (internal/client/ssh.go): `newSSHTransport` and its `dial`.
--   Agent (internal/scriptedagent/scriptedagent.go): `Parse`; Agent/Run: `Script.Run` with its
--     buffered flood.
--
-- Bounds and fuel. Loops are by structure over lists, but for four: `keys_loop` of Inject and
-- `decode_loop` of Tmuxctl/Parse take at least one byte a round, and have the length of the input as
-- their fuel; `decimal` of the Prelude has one more than its number; a row of Tui/Render has its
-- width, since each round takes a column at least. Numbers are unbounded where the
-- code's int cannot overflow; uint32, uint64 and byte arithmetic wrap where the code's does. A
-- channel's buffer and an op queue have the sizes of the code.
--
-- Parameters. The emulator is a record of operations with the laws of Emu, which its adapter has over
-- a terminal library with the laws of Emu/Adapter/Laws; the styling library has those of
-- Tui/Card/Frame; tmux is a function of a
-- command's words in a state of its own, and what is asked of it stands in the hypotheses (`TmuxLaws`
-- of Server/Sizes, `NeverStops` of Server/Wakes). White space is the ASCII part of Go's.
--
-- Not modelled: the streams over SSH and gRPC, processes, files and signals (input and output only);
-- the goroutines that `Serve` starts; the dashboard's header and footer; the command line; generated
-- code, but for the message types that Wire fills; test helpers.
pub mod Prelude
pub mod Inject
pub mod Grid
pub mod Wire
pub mod Client
pub mod Emu
pub mod Pipeline
pub mod Tmuxctl
pub mod Server
pub mod Tui
pub mod Sshx
pub mod Agent
pub mod Examples
