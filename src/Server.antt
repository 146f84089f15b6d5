-- ===== src/Server.antt =====
-- The daemon's socket server: crates/daemon/src/ipc.rs. A client's stream is the bytes that it
-- sends and the writer of what it receives; the broadcast channel is what the subscriber's `recv`
-- returns, in order.
pub mod Exchange
pub mod AddRule
pub mod Stream
use travelmode.Base.{
  ℕ, Bool, true, false, not, List, [], ◌∷◌, ◌++◌, Option, none, some, Text, FilePath, if◌then◌else◌,
}
use travelmode.Types.{Event}
use travelmode.State.{DaemonState}
use travelmode.Ipc.{
  Request, ping, get_status, get_network, get_processes, get_connections, get_top, list_rules,
  add_rule, remove_rule, set_paused, subscribe, Response, event, IpcError, closed, Outcome, success,
  failure, Json, Reader, Writer, read_frame, write_frame,
}
use travelmode.Daemon.{Effects, Handled}

-- `none` is a panic.
abbrev pub Dispatcher : Type 0
Dispatcher = DaemonState → Request → Option Handled

pub data Received : Type 0 where
  broadcast : Event → Received
  lagged : ℕ → Received
  channel_closed : Received

module _ (jq : Json Request) (jr : Json Response) where
  -- The reason why the stream ended, `none` while the subscriber waits, and what was written.
  unfoldable pub stream_events : Writer → List Received → Option IpcError × Writer
  stream_events w [] = (none, w)
  stream_events w (broadcast e ∷ rx) =
      let (err, w') = write_frame jr w (event e) in
      elim err [ some reason ↦ (some reason, w') | none ↦ stream_events w' rx ]
  stream_events w (lagged n ∷ rx) = stream_events w rx
  stream_events w (channel_closed ∷ rx) = (some closed, w)

-- A connection that is served: why it ended, if it has, what its client was sent, and the state of
-- the daemon with the effects of the request.
pub record Served : Type 0 where
  pub reason : Option IpcError
  pub sent : Writer
  pub state : DaemonState
  pub effects : Effects

abbrev pub no_effects : Effects
no_effects = record { commands = []; toggle = none }

abbrev pub is_subscribe : Request → Bool
is_subscribe subscribe = true
is_subscribe ping = false
is_subscribe get_status = false
is_subscribe get_network = false
is_subscribe get_processes = false
is_subscribe get_connections = false
is_subscribe get_top = false
is_subscribe list_rules = false
is_subscribe (add_rule r) = false
is_subscribe (remove_rule i) = false
is_subscribe (set_paused p) = false

-- `Ok(()) => Closed`
abbrev pub reason_of : Option IpcError → IpcError
reason_of none = closed
reason_of (some e) = e

-- What `accept` returns.
pub data Accepted : Type 0 where
  client : Reader → Writer → List Received → Accepted
  accept_failed : Accepted

module _ (jq : Json Request) (jr : Json Response) (dispatch : Dispatcher) where
  abbrev reply_to : Writer → Handled → Served
  reply_to w (response, s, fx) =
      let (e, w') = write_frame jr w response in
      record { reason = some (reason_of e); sent = w'; state = s; effects = fx }

  abbrev serve_request : DaemonState → Writer → List Received → Request → Option Served
  serve_request s w rx request =
      if is_subscribe request
      then (let (e, w') = stream_events jq jr w rx in
          some (record { reason = e; sent = w'; state = s; effects = no_effects }))
      else (elim (dispatch s request) [ none ↦ none | some handled ↦ some (reply_to w handled) ])

  -- `none` is a panic of the dispatcher, which ends the client's task.
  unfoldable pub handle_client : DaemonState → Reader → Writer → List Received → Option Served
  unfolding stream_events
  handle_client s reader w rx = elim (read_frame jq reader) [
    | failure e ↦ some (record { reason = some e; sent = w; state = s; effects = no_effects })
    | success (request, rest) ↦ serve_request s w rx request
  ]

  abbrev state_after : DaemonState → Option Served → DaemonState
  state_after s none = s
  state_after s (some served) = served.state

  -- The clients one after the other; a request is one step, so this is the order of their
  -- requests.
  unfoldable pub accept_loop : DaemonState → List Accepted → DaemonState
  unfolding handle_client
  accept_loop s [] = s
  accept_loop s (accept_failed ∷ rest) = accept_loop s rest
  accept_loop s (client reader w rx ∷ rest) =
      accept_loop (state_after s (handle_client s reader w rx)) rest

-- What is done to the file system to bind the socket, and how it comes out.
pub data SocketStep : Type 0 where
  create_parent unlink bind : FilePath → SocketStep
  chmod : FilePath → ℕ → SocketStep

pub record SocketDir : Type 0 where
  pub has_parent : Bool
  pub mkdir_ok : Bool
  pub exists : Bool
  pub unlink_ok : Bool
  pub bind_ok : Bool

-- Mode 0666; its failure is only logged.
abbrev set_permissions : FilePath → List SocketStep
set_permissions path = chmod path 0x1b6 ∷ []

bind_socket : FilePath → SocketDir → List SocketStep × Option FilePath
bind_socket path d =
    if d.bind_ok then (bind path ∷ set_permissions path, some path) else (bind path ∷ [], none)

remove_stale : FilePath → SocketDir → List SocketStep × Option FilePath
unfolding bind_socket
remove_stale path d =
    let (steps, bound) = bind_socket path d in
    if not d.exists
    then (steps, bound)
    else if d.unlink_ok
    then (unlink path ∷ steps, bound)
    else (unlink path ∷ [], none)

-- `serve`: the steps taken, and the bound path if it succeeds.
unfoldable pub serve : FilePath → SocketDir → List SocketStep × Option FilePath
unfolding remove_stale
serve path d =
    let (steps, bound) = remove_stale path d in
    if not d.has_parent
    then (steps, bound)
    else if d.mkdir_ok
    then (create_parent path ∷ steps, bound)
    else (create_parent path ∷ [], none)
