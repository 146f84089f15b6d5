-- ===== src/Daemon/Tasks/Informed.antt =====
-- A client that follows the events stays informed of the rules under every interleaving of the
-- tasks of crates/daemon/src/main.rs.

use travelmode.Base.{
  ℕ, ◌+◌, ◌<◌, ◌≤◌, ◌≡◌, refl, ap, List, [], ◌∷◌, text_key, arith, length, u64_mod, Option-cases,
}
use travelmode.Types.{Rule, rule_removed, paused_changed, paused_changed}
use travelmode.Conntrack.{AddrText}
use travelmode.Conntrack.Poll.{poll_once}
use travelmode.Procs.Scan.{scan_once}
use travelmode.Rules
use travelmode.Rules.{RuleStore, is_blocked, blocks}
use travelmode.Rules.{add_call, remove_call, reap_call, store_after}
use travelmode.Rules.Invariant.{step, step-next_id}
use travelmode.Rules.Told.{hear_rule}
use travelmode.State.{DaemonState, publish}
use travelmode.Firewall.Verdict.{decide}
use travelmode.Ipc.{
  Request, ping, get_status, get_network, get_processes, get_connections, get_top, list_rules,
  add_rule, remove_rule, set_paused, subscribe,
}
use travelmode.Daemon.{
  Setting, dispatch, handle_add_rule, handle_remove_rule, handle_set_paused, announce_reaped,
  reap_once, refresh_network,
}
use travelmode.Daemon.Tasks.{
  after_request, after_packet, Step, request, packet, poll, scan, reap, network_read, System,
  perform, run,
}
use travelmode.Daemon.Tasks.Kept.{Kept, publish-Kept}
use travelmode.Daemon.Tasks.Tables.{IgnoresFlows, IgnoresProcesses, poll_once-Kept, scan_once-Kept}
use travelmode.Daemon.Tasks.Packets.{decide-Kept}
use travelmode.Daemon.Tasks.Knows.{rules, Knows, add_rule-Knows, remove_rule-Knows, reap_once-Knows}

pub rules-IgnoresFlows : (start : List Rule) → IgnoresFlows (rules start)
rules-IgnoresFlows start =
    unfold hear_rule in
    record {
      opened = λ c m. refl;
      updated = λ c m. refl;
      closed = λ k m. refl;
      unseen = λ r p c d h. refl;
    }

pub rules-IgnoresProcesses : (start : List Rule) → IgnoresProcesses (rules start)
rules-IgnoresProcesses start =
    unfold hear_rule in
    record { started = λ p m. refl; exited = λ pid m. refl; unseen = λ r p q c h. refl }

-- The step keeps what the client knows, and takes one id at most.
module _ (start : List Rule) where
  Kept-Knows : (s s' : DaemonState) → Kept (rules start) s s' → Knows start s → Knows start s'
  Kept-Knows s s' k h = record {
    valid = rw k.same_view h.valid;
    known = rw (k.same_told, k.same_view) h.known;
  }

  dispatch-Knows :
      (e : Setting) (s : DaemonState) (r : Request)
      → s.rules.next_id + 1 < u64_mod
      → Knows start s
      → Knows start (after_request s (dispatch e s r))
  unfolding dispatch handle_set_paused
  dispatch-Knows e s ping n h = h
  dispatch-Knows e s get_status n h = h
  dispatch-Knows e s get_network n h = h
  dispatch-Knows e s get_processes n h = h
  dispatch-Knows e s get_connections n h = h
  dispatch-Knows e s get_top n h = h
  dispatch-Knows e s list_rules n h = h
  dispatch-Knows e s (add_rule rule) n h = add_rule-Knows start e s rule n h
  dispatch-Knows e s (remove_rule id) n h = remove_rule-Knows start e s id h
  dispatch-Knows e s (set_paused paused) n h =
      Kept-Knows s (publish (paused_changed paused) (record s { paused = paused }))
        (publish-Kept (rules start) (paused_changed paused) s (record s { paused = paused })
          (λ m. unfold hear_rule in refl) refl refl)
        h
  dispatch-Knows e s subscribe n h = h

  perform-Knows :
      (a : AddrText) (step : Step) (y : System)
      → y.state.rules.next_id + 1 < u64_mod
      → Knows start y.state
      → Knows start (perform a step y).state
  unfolding perform refresh_network
  perform-Knows a (request e r) y n h = dispatch-Knows e y.state r n h
  perform-Knows a (packet p) y n h =
      Kept-Knows y.state (after_packet y.state (decide a y.state p))
        (decide-Kept (rules start) a y.state p) h
  perform-Knows a (poll w now) y n h =
      Kept-Knows y.state (poll_once a w now y.state)
        (poll_once-Kept (rules start) (rules-IgnoresFlows start) a w now y.state) h
  perform-Knows a (scan w) y n h =
      Kept-Knows y.state (scan_once w y.users y.state).0
        (scan_once-Kept (rules start) (rules-IgnoresProcesses start) w y.users y.state) h
  perform-Knows a (reap e) y n h = reap_once-Knows start e y.state h
  perform-Knows a (network_read m) y n h = record { valid = h.valid; known = h.known }

pub announce_reaped-rules :
    (ids : List ℕ) (s : DaemonState) → (announce_reaped ids s).rules ≡ s.rules
unfolding announce_reaped
announce_reaped-rules [] s = refl
announce_reaped-rules (id ∷ ids) s = announce_reaped-rules ids (publish (rule_removed id) s)

pub reap_once-next_id :
    (e : Setting) (s : DaemonState) → (reap_once e s).rules.next_id ≤ s.rules.next_id + 1
unfolding reap_once step
reap_once-next_id e s = ground (
  arith,
  announce_reaped-rules (Rules.reap_expired e.platform e.saving s.rules e.now).0
      (record s { rules = (Rules.reap_expired e.platform e.saving s.rules e.now).1 }),
  step-next_id e.platform s.rules (e.now, e.saving, reap_call),
)

dispatch-next_id :
    (e : Setting) (s : DaemonState) (r : Request)
    → (after_request s (dispatch e s r)).rules.next_id ≤ s.rules.next_id + 1
unfolding dispatch handle_set_paused handle_add_rule handle_remove_rule step
dispatch-next_id e s ping = omega arith
dispatch-next_id e s get_status = omega arith
dispatch-next_id e s get_network = omega arith
dispatch-next_id e s get_processes = omega arith
dispatch-next_id e s get_connections = omega arith
dispatch-next_id e s get_top = omega arith
dispatch-next_id e s list_rules = omega arith
dispatch-next_id e s (add_rule rule) = ground (
  arith,
  step-next_id e.platform s.rules (e.now, e.saving, add_call rule),
  Option-cases (Rules.add e.platform e.saving s.rules rule e.now),
)
dispatch-next_id e s (remove_rule id) = ground (
  arith,
  step-next_id e.platform s.rules (e.now, e.saving, remove_call id),
  Option-cases (Rules.remove e.platform e.saving s.rules id),
)
dispatch-next_id e s (set_paused paused) = omega arith
dispatch-next_id e s subscribe = omega arith

pub perform-next_id :
    (a : AddrText) (step : Step) (y : System)
    → (perform a step y).state.rules.next_id ≤ y.state.rules.next_id + 1
unfolding perform refresh_network
perform-next_id a (request e r) y = dispatch-next_id e y.state r
perform-next_id a (packet p) y =
    ground (arith, ap (λ (s : RuleStore). s.next_id) (decide-Kept (rules []) a y.state p).same_view)
perform-next_id a (poll w now) y = ground (
  arith,
  ap (λ (s : RuleStore). s.next_id)
      (poll_once-Kept (rules []) (rules-IgnoresFlows []) a w now y.state).same_view,
)
perform-next_id a (scan w) y = ground (
  arith,
  ap (λ (s : RuleStore). s.next_id)
      (scan_once-Kept (rules []) (rules-IgnoresProcesses []) w y.users y.state).same_view,
)
perform-next_id a (reap e) y = reap_once-next_id e y.state
perform-next_id a (network_read m) y = omega arith

-- However the tasks of the daemon interleave, short of exhausting the ids: the rules keep distinct
-- ids below the next one and distinct targets, and who knew every rule from a list and the events
-- still does.
pub run-Knows :
    (start : List Rule) (a : AddrText) (steps : List Step) (y : System)
    → y.state.rules.next_id + length steps < u64_mod
    → Knows start y.state
    → Knows start (run a steps y).state
unfolding run
run-Knows start a [] y n h = h
run-Knows start a (step ∷ steps) y n h =
    run-Knows start a steps (perform a step y) (omega (arith, perform-next_id a step y))
      (perform-Knows start a step y (omega arith) h)
