-- ===== src/Lib.antt =====
-- travelmode: per-application network control for Linux. A root daemon tracks network flows, finds the
-- process behind each, and enforces Block rules: packets of new flows are queued by nftables to the
-- daemon, which accepts or drops them, and flows that exist already are killed. Clients talk to it
-- over a Unix socket.
--
-- Files, and the code they model (all paths are from the root of the repository):
--   Types                crates/core/src/types.rs, the shared domain types
--   Ipc                  crates/core/src/ipc.rs, requests, responses and length-prefixed frames
--   Rules                crates/daemon/src/rules.rs: `RuleStore` with `load`, `add`, `remove`,
--                        `reap_expired`, `is_blocked`, `save`; Rules/ holds the proofs
--   Firewall/Throttle    `LogThrottle` of crates/daemon/src/firewall.rs
--   Firewall/Packet      `parse_packet` of the same file, over bytes
--   Firewall/Verdict     `decide` of the same file, Firewall/Worker its `queue_loop`
--                        and `spawn_queue_worker`
--   Firewall/Table       `Firewall` of the same file: the nftables commands that switch queueing
--   World                what is read from /proc, at one moment
--   Attrib               crates/daemon/src/attrib.rs: from a local port to a socket inode to a pid
--   Conntrack            `parse_line` of crates/daemon/src/conntrack.rs; Conntrack/Poll is `poll_once`
--   FlowKill             crates/daemon/src/flowkill.rs: the commands that cut flows off;
--                        FlowKill/Startup is `run` of crates/daemon/src/conntrack.rs
--   Procs                crates/daemon/src/procs.rs; Procs/Scan is `scan_once`
--   Config               crates/daemon/src/config.rs
--   State                crates/daemon/src/state.rs: `DaemonState` and `attribute`
--   Server               crates/daemon/src/ipc.rs: the socket, the connection of one client, the event
--                        stream; Server/Exchange joins it to a client, Server/AddRule
--                        follows a request to block a program
--   Netinfo              crates/daemon/src/netinfo.rs; Netinfo/Route is the default route, Netinfo/Dns
--                        the DNS servers, Netinfo/Manager what NetworkManager says
--   Daemon               `dispatch`, `reaper_loop`, `shutdown` of crates/daemon/src/main.rs;
--                        Daemon/TopApps is `top_apps`, Daemon/Tasks the tasks that `main` spawns,
--                        Daemon/Main the whole of `main`
--   Client               crates/gui/src/state.rs: `ClientState` and its events; Client/Snapshot is the
--                        start and the tick, Client/Session a whole session
--   Cli                  crates/cli/src/main.rs: `run`; Cli/Resolve is `resolve_exe`, Cli/Watch is
--                        `watch`, Cli/Print and Cli/Table are what is printed
--   Ipc/Link             one request on a fresh connection, as both clients make it
--   Gui                  the requests of crates/gui/src/client.rs; Gui/Session is `session` and `run`
--   Gui/Icons            `decode_png` and `icons` of crates/gui/src/icons.rs
--   Gui/Window           crates/gui/src/app.rs; Gui/Tray is crates/gui/src/tray.rs, Gui/Thread the
--                        thread that runs the client, Gui/Fmt crates/gui/src/fmt.rs
--   Gui/Pages            crates/gui/src/pages/mod.rs, applications.rs, connections.rs,
--                        dashboard.rs and settings.rs
--   Base                 helpers: lists and arithmetic over native numbers, texts, maps, parsing
--   Tests                the theorems at concrete inputs, and runs after the repository's own tests
--
-- The poll fills the table of connections, to which `attribute` adds the owners. A request to `dispatch`
-- changes the rules, publishes an event and, for a Block rule, kills the flows of the table. `decide`
-- reads the rules for each queued packet.
--
-- State is passed explicitly; a handler maps a state to a state. A lock that is held throughout a call
-- makes the call one step; a request to the daemon is one step too, although its event is published
-- after the lock of the rules is released. Mutable clocks, files and commands are arguments: the time
-- of the call, a `World`, the outcome of a save (`SaveRun`), the commands that succeed (`Tools`). Panics are the
-- outer `none`, or `panicked` for the packet parser. Texts are lists of code points, times numbers of
-- nanoseconds, and byte counters wrap at 2^64. Maps are association lists, whose order stands for an
-- iteration order. Loops are over lists, but for the one that reads a stream of frames in
-- Cli/Watch: it has one unit of fuel more than the stream has bytes, and each frame takes at least
-- four. A `select!` is the sequence of what it completes, and the tasks of the daemon are a sequence of
-- their steps.
--
-- serde_json, chrono, toml and the text form of addresses are parameters (`Platform`, `Json`,
-- `AddrText`), and so is the program nft (`Nft`); theorems name what they need of them.
--
-- Not modelled: the calls of netlink and D-Bus, whose answers are arguments; the layout of the
-- GUI; logging; the reading of signals.
pub mod Base
pub mod Types
pub mod World
pub mod Ipc
pub mod Rules
pub mod Firewall
pub mod Attrib
pub mod Conntrack
pub mod Config
pub mod Procs
pub mod State
pub mod FlowKill
pub mod Daemon
pub mod Client
pub mod Server
pub mod Cli
pub mod Gui
pub mod Netinfo
mod Tests
