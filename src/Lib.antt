-- ===== src/Lib.antt =====
-- OwlSentry, an intrusion detection daemon with a desktop window.
--
-- The daemon's monitors watch the network, the files, the audit log and the processes and send
-- alerts over a channel to one dispatcher. It numbers an alert, writes it to the journal, records
-- it in the shared state and broadcasts it to the sessions of the clients. A session answers
-- requests with the recent alerts or the statistics, and streams the alerts once its client has
-- subscribed. The window asks for the recent alerts, merges what arrives and filters what it
-- shows.
--
-- Base and its children hold the shared helpers: lists, equality, association lists and sublists.
-- Text is what the sources use of `str`, a text being the list of its code points, with the lines
-- of `lines` (Text/Lines) and of `read_line` (Text/Chunks), and FilePath what they use of
-- `std::path`. The files below model the program.
-- - Alert: crates/owlsentry-common/src/alert.rs. `new_alert` takes the instant that `Utc::now`
--   reads.
-- - I18n: crates/owlsentry-common/src/i18n.rs, the language and the labels; I18n/Labels is `tr`.
-- - Ipc: crates/owlsentry-common/src/ipc.rs, requests and messages; Ipc/Wire has them as the
--   lines that `send` of ipc_server.rs and `send_request` of client.rs write.
-- - Messages: crates/owlsentry-daemon/src/messages.rs, a function for each detection.
-- - State: crates/owlsentry-daemon/src/state.rs. `record_alert` is `record`, `recent_alerts` is
--   `recent`, `stats_of` is `stats`; the lock makes each of them one step. State/Windows, Counts
--   and Hours hold the proofs about the recent alerts, the counters and the hours.
-- - Dispatcher: crates/owlsentry-daemon/src/dispatcher.rs and `AlertWriter` of logging.rs, whose
--   journal is a list of alerts in Dispatcher and a text for each day in Dispatcher/Writer.
-- - Daemon: the dispatcher with any number of sessions, as a step relation that allows every
--   order of the steps of them all. Daemon/Serving and Sessions relate it to the dispatcher alone
--   and to each session alone, Daemon/Agreement compares its clients, Daemon/Order two orders of
--   what arrives, as a multiset, and Daemon/Run is a run for the tests.
-- - Server: crates/owlsentry-daemon/src/ipc_server.rs. `on_event` is a turn of the loop of
--   `handle_client`; Server/World puts a session beside the dispatcher, as a step relation that
--   allows every order of their steps. Server/Socket is `serve` up to its loop, with what its
--   calls do to the files, Server/Accept is its loop, and Server/Access has the permission bits
--   by which a user connects.
-- - Channel: the senders of the monitors; a loop ends at the first send that fails.
-- - Net: crates/owlsentry-daemon/src/monitors/net.rs, with the parser of the lines of
--   /proc/net/tcp (Net/Line), the reading of these files and of the owners of sockets, and the
--   arguments of firewall-cmd (Net/Reading), `ScanTracker` (Net/Tracker) and the loop `run`
--   (Net/Monitor); Net/Memory is about the entries that its loop keeps.
-- - Fs: crates/owlsentry-daemon/src/monitors/fs.rs, with `classify`, the loop (Fs/Monitor) and
--   the installation of the watcher (Fs/Watch).
-- - Audit: crates/owlsentry-daemon/src/monitors/audit.rs. `parse_kv` runs on fuel, a unit for
--   each character (Audit/KeyValues); `parse_line` is in Audit/Events, `event_to_alert` and the
--   loop over what it meets in Audit/Monitor. Audit/Tail puts `run` beside a file system, with a
--   step between any two calls of it; Audit/Split, Exact, Writes and Account hold the account of
--   what was written to the log, Audit/Follows is about all runs from the opened log on,
--   Audit/Progress about the loop by itself, and Audit/Rotation about a log that is turned over
--   while the loop sleeps.
-- - Process: crates/owlsentry-daemon/src/monitors/process.rs, with what is read of a process
--   (Process/Reading) and the scan (Process/Monitor).
-- - Config: crates/owlsentry-common/src/config.rs, the records and their defaults (Config/Types),
--   `validate` and `load` (Config/Validate), the rules and `load_or_default` (Config/Rules).
-- - Start: crates/owlsentry-daemon/src/main.rs and `init` of logging.rs. What `main` does is a
--   list of effects, among them the tasks it spawns with their arguments.
-- - Gui: crates/owlsentry-gui/src/client.rs, app.rs and main.rs: the client thread over the lines
--   of a connection (Gui/Client) and over its attempts to connect (Gui/Connect), the state of the
--   window (Gui/App), what it keeps of what arrives (Gui/Retained), its bars (Gui/Bars), the list
--   with the details (Gui/AlertsView), the dashboard and a frame (Gui/Dashboard). What the user
--   does in a frame is an argument, and what is drawn is a list of texts with their colours.
-- - Pipeline: the parts together: a session's messages up to the window (Pipeline/Window), the
--   same over the text of the socket, also where it breaks off (Pipeline/Socket), the first
--   requests of a client at the session (Pipeline/Handshake), an alert from its arrival to the
--   window and the desktop (Pipeline/Arrival), a change of a file from the monitor on
--   (Pipeline/FileChange), an alert that is broadcast while a client connects (Pipeline/Race),
--   and the window over all connections (Pipeline/Reconnect).
--
-- What is not under the repository is a parameter: serde's reading of a line (`decode`), chrono's
-- `from_timestamp`, `to_lowercase` of `str`, the text of an address, the reading of TOML, and,
-- with each step, whether a write or a send succeeds and what the system answers. Whether bytes of
-- the audit log are text is one too, and so is the line that serde makes of a message (`encode`).
-- Counters wrap at 2^64 and numbers of alerts too. Loops are recursion over the inputs they work
-- through, but for that of `parse_kv`, whose fuel is the length of the line and 1: each turn takes
-- a character at least, so that it never runs out. A slice that would panic is a result of its own (`none` of `parse_kv`,
-- `panics` of the parsers). Time is a number of units, except for the instants of alerts, which
-- are seconds and nanoseconds.
--
-- Not modelled: the parsers and writers of JSON, TOML and the command line, the places of what the
-- window draws, the notification of the desktop, and the credentials of a client, which are logged
-- only; they are calls of the system and of libraries. In Ipc/Wire and Dispatcher/Writer a text
-- stands for its bytes. Instants before 1970 are not modelled either.
pub mod Base
pub mod Text
pub mod Alert
pub mod I18n
pub mod Messages
pub mod Ipc
pub mod State
pub mod Daemon
pub mod Dispatcher
pub mod Server
pub mod Gui
pub mod Channel
pub mod Net
pub mod Samples
pub mod FilePath
pub mod Fs
pub mod Process
pub mod Audit
pub mod Config
pub mod Pipeline
pub mod Start
