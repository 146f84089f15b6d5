-- ===== src/Daemon/Tasks/Sync.antt =====
-- What subscribers know of the tables of the daemon under every interleaving of its tasks:
-- crates/daemon/src/main.rs with conntrack.rs and procs.rs.

use travelmode.Base.Map
use travelmode.Base.{text_key, nat_key, ◌∙◌, refl, ap, sym, List, [], ◌∷◌}
use travelmode.State.{DaemonState}
use travelmode.Conntrack.{AddrText}
use travelmode.Conntrack.Poll.{poll_once}
use travelmode.Conntrack.Poll.Sync as Flows
use travelmode.Conntrack.Poll.Sync.{poll_once-InSync, attribute_tables, mirror}
use travelmode.Procs.Scan.{scan_once}
use travelmode.Procs.Scan.Sync as Processes
use travelmode.Procs.Scan.Sync.{scan_once-InSync, announce_started-processes}
use travelmode.Firewall.Verdict.{decide}
use travelmode.Daemon.{dispatch, reap_once, refresh_network}
use travelmode.Daemon.Tasks.{
  after_request, after_packet, Step, request, packet, poll, scan, reap, network_read, System,
  perform, run,
}
use travelmode.Daemon.Tasks.Kept.{Kept}
use travelmode.Daemon.Tasks.Tables.{IgnoresFlows, IgnoresProcesses, poll_once-Kept, scan_once-Kept}
use travelmode.Daemon.Tasks.Requests.{
  flows, processes, BothKept, alike-BothKept, dispatch-BothKept, decide-BothKept,
  reap_once-BothKept,
}

kept-flows-InSync : (s s' : DaemonState) → Kept flows s s' → Flows.InSync s → Flows.InSync s'
unfolding mirror
kept-flows-InSync s s' k h = record {
  mirrored =
      λ key. ap (Map.get key) k.same_told ∙ h.mirrored key ∙ ap (Map.get key) (sym k.same_view);
  keyed = λ key c g. h.keyed key c (ap (Map.get key) (sym k.same_view) ∙ g);
}

kept-processes-InSync :
    (s s' : DaemonState) → Kept processes s s' → Processes.InSync s → Processes.InSync s'
kept-processes-InSync s s' k h pid =
    ap (Map.contains_key pid) k.same_told ∙ h pid ∙ ap (Map.contains_key pid) (sym k.same_view)

processes-IgnoresFlows : IgnoresFlows processes
processes-IgnoresFlows = record {
  opened = λ c m. refl;
  updated = λ c m. refl;
  closed = λ k m. refl;
  unseen = λ r p c d h. refl;
}

flows-IgnoresProcesses : IgnoresProcesses flows
flows-IgnoresProcesses = record {
  started = λ p m. refl;
  exited = λ pid m. refl;
  unseen = λ r p q c h. refl;
}

-- Who follows every event from the start has the connections, and the pids of the processes, that the
-- daemon lists. What else the daemon knows of a process may change without an event.
pub record InStep (s : DaemonState) : Type 0 where
  pub flows : Flows.InSync s
  pub pids : Processes.InSync s

kept-InStep : (s s' : DaemonState) → BothKept s s' → InStep s → InStep s'
kept-InStep s s' (f, p) h = record {
  flows = kept-flows-InSync s s' f h.flows;
  pids = kept-processes-InSync s s' p h.pids;
}

perform-InStep :
    (a : AddrText) (step : Step) (y : System) → InStep y.state → InStep (perform a step y).state
unfolding perform refresh_network
perform-InStep a (request e r) y h =
    kept-InStep y.state (after_request y.state (dispatch e y.state r))
      (dispatch-BothKept e y.state r) h
perform-InStep a (packet p) y h =
    kept-InStep y.state (after_packet y.state (decide a y.state p)) (decide-BothKept a y.state p) h
perform-InStep a (poll w now) y h = record {
  flows = poll_once-InSync a w now y.state h.flows;
  pids =
      kept-processes-InSync y.state (poll_once a w now y.state)
        (poll_once-Kept processes processes-IgnoresFlows a w now y.state) h.pids;
}
perform-InStep a (scan w) y h = record {
  flows =
      kept-flows-InSync y.state (scan_once w y.users y.state).0
        (scan_once-Kept flows flows-IgnoresProcesses w y.users y.state) h.flows;
  pids = scan_once-InSync w y.users y.state h.pids;
}
perform-InStep a (reap e) y h =
    kept-InStep y.state (reap_once e y.state) (reap_once-BothKept e y.state) h
perform-InStep a (network_read n) y h =
    kept-InStep y.state (refresh_network n y.state)
      (alike-BothKept y.state (refresh_network n y.state) refl refl refl) h

-- However the tasks of the daemon interleave, whatever they read and are asked: if the events so far
-- gave a subscriber the connections that the daemon lists, and the pids of the processes that it lists,
-- they still do. A process that stays listed may change its name, executable or user without an event.
pub run-InStep :
    (a : AddrText) (steps : List Step) (y : System) → InStep y.state → InStep (run a steps y).state
unfolding run
run-InStep a [] y h = h
run-InStep a (step ∷ steps) y h = run-InStep a steps (perform a step y) (perform-InStep a step y h)
