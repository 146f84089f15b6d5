-- ===== src/Daemon/Tasks.antt =====
-- The tasks that `main` of crates/daemon/src/main.rs spawns, on one shared state: the workers of the
-- queue, of the connection table and of the processes, the reaper, the network refresh, and the
-- clients' requests. What a task does between two waits is taken as one step, and the order of the
-- steps is any; each table is written by one task alone, which holds its lock meanwhile. A request is
-- one step too, although the lock of the rules is released before `publish`: that another thread runs
-- between the change of the rules and its event is not modelled.
pub mod Kept
pub mod Tables
pub mod Packets
pub mod Requests
pub mod Sync
pub mod Knows
pub mod Informed
pub mod Clients
pub mod Stores
pub mod Expiry
pub mod Replay
pub mod Late
use travelmode.Base.{List, [], ◌∷◌, Option, none, some, ℕ}
use travelmode.Types.{NetworkInfo}
use travelmode.World.{World}
use travelmode.Conntrack.{AddrText}
use travelmode.Conntrack.Poll.{poll_once}
use travelmode.Procs.{UserCache}
use travelmode.Procs.Scan.{scan_once}
use travelmode.State.{DaemonState}
use travelmode.Firewall.Verdict.{Arrival, Verdict, decide}
use travelmode.Ipc.{Request}
use travelmode.Daemon.{Setting, Handled, dispatch, reap_once, refresh_network}

pub data Step : Type 0 where
  request : Setting → Request → Step
  packet : Arrival → Step
  poll : World → ℕ → Step
  scan : World → Step
  reap : Setting → Step
  network_read : NetworkInfo → Step

-- The shared state, and the cache of user names, which the process task keeps.
pub record System : Type 0 where
  pub state : DaemonState
  pub users : UserCache

-- A panic comes before the state is changed, and ends the client's task alone.
abbrev pub after_request : DaemonState → Option Handled → DaemonState
after_request s none = s
after_request s (some (response, s', effects)) = s'

abbrev pub after_packet : DaemonState → Option (Verdict × DaemonState) → DaemonState
after_packet s none = s
after_packet s (some (verdict, s')) = s'

unfoldable pub perform : AddrText → Step → System → System
unfolding dispatch decide poll_once scan_once reap_once refresh_network
perform a (request e r) y = record y { state = after_request y.state (dispatch e y.state r) }
perform a (packet p) y = record y { state = after_packet y.state (decide a y.state p) }
perform a (poll w now) y = record y { state = poll_once a w now y.state }
perform a (scan w) y = record {
  state = (scan_once w y.users y.state).0;
  users = (scan_once w y.users y.state).1;
}
perform a (reap e) y = record y { state = reap_once e y.state }
perform a (network_read n) y = record y { state = refresh_network n y.state }

unfoldable pub run : AddrText → List Step → System → System
unfolding perform
run a [] y = y
run a (step ∷ steps) y = run a steps (perform a step y)
