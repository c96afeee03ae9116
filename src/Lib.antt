-- ===== src/Lib.antt =====
-- The daemon of BrowserSkill, which stands between CLI peers and browser extensions.
--
-- The commands of the CLI (crates/bsk-cli/src/cli) check their arguments, send a request and turn its
-- error into an exit code. They start and stop the daemon (crates/bsk-cli/src/daemon/start.rs), upgrade
-- the program (cli/update.rs), check the installation (cli/doctor.rs), and install the skill for the
-- harnesses of agents (crates/bsk-cli/src/skill_install).
--
-- A CLI peer sends a request over a local socket (crates/bsk-cli/src/daemon/ipc.rs). A tool call names
-- a session; the daemon checks the pending user interrupts, registers the call as inflight, and gives
-- it to the queue of its session (queue.rs), whose worker forwards it over a WebSocket (ws.rs) to the
-- browser that owns the session (browsers.rs, sessions.rs). A cancel, from the peer or from the user in
-- the browser, can come at any time (inflight.rs, abort.rs, session_interrupt.rs, cancel_forward.rs).
-- Extensions connect, reconnect, fall silent and disconnect, and their sessions go with them.
-- Tasks of the daemon stop idle sessions, drop silent browsers and keep the program up to date. The
-- frames, methods and the version negotiation are in crates/bsk-protocol/src.
--
-- The modules, and the code that each models:
--   Prelude, Map, Digits      shared names and lemmas; a HashMap with text keys; texts of digits
--   Files                     std::fs as the code calls it; Atomic is the replacement by a rename
--   Protocol.Method           method.rs: methods, effect classes, the interrupt gate
--   Protocol.Json             the values of serde_json
--   Protocol.Frame            frame.rs, error.rs: the data types of the wire
--   Protocol.Names            method.rs, frame.rs, error.rs: the names of variants on the wire
--   Protocol.Codec            frame.rs, error.rs: the codec of frames; Response is that of ResponseFrame
--   Protocol.Handshake        system.rs: protocol versions, evaluate_handshake_compat
--   Daemon.Inflight           inflight.rs; Race is the race of a promotion with cancels
--   Daemon.Abort              abort.rs
--   Daemon.Interrupts         session_interrupt.rs
--   Daemon.Browsers           browsers.rs: clients, sinks, waiters, selection
--   Daemon.Sessions           sessions.rs: SessionRegistry
--   Daemon.Queues             queue.rs: ToolQueueRegistry, the channels and the busy lock
--   Daemon.Forward            queue.rs: forward_one, await_with_optional_cancel
--   Daemon.State              state.rs: DaemonState
--   Daemon.Start              sessions.rs: start_session
--   Daemon.Stop               sessions.rs: stop_session, forget_session
--   Daemon.Times              ipc.rs: time limits, handle_wait_ms
--   Daemon.Cancel             ipc.rs, cancel_forward.rs: handle_cancel
--   Daemon.Ipc                ipc.rs: full_handler, handle_tool_dispatch
--   Daemon.Ws                 ws.rs; start.rs: spawn_browser_liveness_reaper
--   Daemon.System             state.rs: DaemonState::new, and every handler as an event
--   Daemon.Ipc.Lifecycle      ipc.rs: the answers to a start, a stop and the stop of all sessions
--   Daemon.Status             ipc.rs, sessions.rs, browsers.rs: the status and the lists
--   Daemon.Reaper             start.rs: spawn_session_idle_reaper
--   Daemon.Process            start.rs: run_start, run_stop, the idle exit; info.rs: write_to_path
--   Cli.Errors                crates/bsk-cli/src/cli: error.rs, render_error.rs
--   Cli.Targets               interaction.rs, human_loop.rs: refs and selectors
--   Cli.Durations             navigate.rs, waits.rs, daemon.rs: the parsers of durations
--   Cli.Emulate               emulate.rs: build_params and the presets
--   Cli.Update                update.rs: auto_update_step, update_candidate, the cache; below it:
--                             Install is the download, the check and the replacement of the
--                             executable, Tick is spawn_update_check_task of start.rs, Command is
--                             install_candidate_with_client
--   Cli.Doctor                doctor.rs: the state of the daemon, the checks, the verdict
--   Skill.Harness             skill_install/harness.rs: names and directories of harnesses
--   Skill.Sync                skill_install/sync.rs
--   Skill.Select              skill_install/mod.rs: the choice by indices, the installation
--   Examples                  a concrete run for each result
-- A function keeps its name in the code; an async one is cut at its await into begin_* and end_*. The
-- theorems about a module stand in the modules below it.
--
-- How the model is built:
--   - The code of a handler between two awaits is one step on the state, though the runtime has several
--     threads. The one place where the code itself reasons about locks, an inflight entry, is modelled
--     lock by lock in Daemon.Inflight.Race.
--   - A HashMap is an association list, whose order stands for the unspecified order of a walk. Ids are
--     texts, compared as wholes. A text that the code reads by characters is the list of its bytes.
--   - An Arc is an address in a heap: entries and tokens in their registries, the channels of queues,
--     and, by its generation, the shared part of a connected client (its sink, its waiters and its
--     liveness marks). Frames that were pushed to a sink stay in a log.
--   - A frame is read from and written to a JSON value, whose text is the matter of serde_json; in the
--     daemon, the decoders of payloads and the views of parameters are arguments. Random ids are a
--     list of draws. Instants and durations are numbers of milliseconds, window and tab ids numbers.
--   - reserve_id has the code's bound of 64 attempts, and fails when they, or the draws, are used up.
--     select_with_connect_wait runs over the turns of its loop, given as the times and registries that
--     it sees; it answers as soon as one of them is at the deadline.
--   - The disk is a function from paths to files. Each call on it takes its outcome from a list that
--     stands for the system, and fails when the list is used up; a write can leave any contents on its
--     way, whether it succeeds or not; a rename is one step. Every state of the disk is kept, so that a
--     theorem on all of them speaks of a crash at any moment and of other readers. Two paths are the
--     same exactly if their parents and their names are; links are not modelled.
--   - What a start or a stop of the daemon sees of daemon.json, of the process and of its socket is a
--     list of looks or polls, one for each turn of the loop before its deadline.
--   - Versions, HTTP, SHA-256, the archive formats, environment variables and the JSON of files are
--     arguments.
--   - Left out: log lines, the durations and details inside some messages, the browsers that the
--     multiple_browsers_online error shows, and the debug-only delays of tests.
--
-- Not modelled: sockets, pipes and the accept loops; the spawning of processes, the signals themselves
-- and the lock file; run_foreground, which wires the tasks together; the JSON of the manifest, the
-- report of bsk update and the staged replacement on Windows; the detection of harnesses and the
-- interactive prompt; the CLI commands but for the parts above; the serde payload types; the extension,
-- which is not in Rust.
pub mod Prelude
pub mod Map
pub mod Digits
pub mod Files
pub mod Protocol
pub mod Daemon
pub mod Cli
pub mod Skill
pub mod Examples
