-- ===== src/Daemon/Tasks/Requests.antt =====
-- Requests and reaping leave the connections and the processes alone: crates/daemon/src/main.rs.

use travelmode.Base.{text_key, nat_key, ℕ, ◌≡◌, refl, Bool, List, [], ◌∷◌, Option, none, some, Text}
use travelmode.Base.Map.{Map}
use travelmode.Types.{
  Event, RuleInput, Rule, rule_added, rule_removed, paused_changed, ProcessInfo, ConnectionInfo,
}
use travelmode.State.{DaemonState, publish}
use travelmode.Conntrack.{AddrText}
use travelmode.Conntrack.Poll.Sync as Flows
use travelmode.Procs.Scan.Sync as Processes
use travelmode.Rules
use travelmode.Rules.{RuleStore}
use travelmode.Firewall.Verdict.{Arrival, decide}
use travelmode.Ipc.{
  Request, ping, get_status, get_network, get_processes, get_connections, get_top, list_rules,
  add_rule, remove_rule, set_paused, subscribe,
}
use travelmode.Daemon.{
  Setting, dispatch, handle_add_rule, handle_remove_rule, handle_set_paused, announce_reaped,
  reap_once,
}
use travelmode.Daemon.Tasks.{after_request, after_packet}
use travelmode.Daemon.Tasks.Kept.{Listener, Kept, Kept-refl, Kept-trans, alike-Kept, publish-Kept}
use travelmode.Daemon.Tasks.Packets.{decide-Kept}

-- The followers of the connections and of the processes.
abbrev pub flows : Listener (Map Text ConnectionInfo) (Map Text ConnectionInfo)
flows = record { heard = Flows.heard; start = []; view = λ rules processes conns handle. conns }

abbrev pub processes : Listener (Map ℕ ProcessInfo) (Map ℕ ProcessInfo)
processes = record { heard = Processes.heard; start = []; view = λ rules procs conns handle. procs }

-- Neither table, and no event on either.
abbrev pub BothKept : DaemonState → DaemonState → Type 0
BothKept s s' = Kept flows s s' × Kept processes s s'

BothKept-refl : (s : DaemonState) → BothKept s s
BothKept-refl s = (Kept-refl flows s, Kept-refl processes s)

BothKept-trans : (s t u : DaemonState) → BothKept s t → BothKept t u → BothKept s u
BothKept-trans s t u (f, p) (g, q) = (Kept-trans flows s t u f g, Kept-trans processes s t u p q)

-- States that differ in neither the tables nor the events.
pub alike-BothKept :
    (s s' : DaemonState)
    → s'.events ≡ s.events
    → s'.connections ≡ s.connections
    → s'.processes ≡ s.processes
    → BothKept s s'
alike-BothKept s s' e c p = (alike-Kept flows s s' e c, alike-Kept processes s s' e p)

publish-BothKept :
    (e : Event) (s : DaemonState)
    → ((m : Map Text ConnectionInfo) → Flows.heard e m ≡ m)
    → ((m : Map ℕ ProcessInfo) → Processes.heard e m ≡ m)
    → BothKept s (publish e s)
publish-BothKept e s h k =
    (publish-Kept flows e s s h refl refl, publish-Kept processes e s s k refl refl)

add_rule-BothKept :
    (e : Setting) (s : DaemonState) (input : RuleInput)
    → BothKept s (after_request s (handle_add_rule e s input))
unfolding handle_add_rule
add_rule-BothKept e s input = added (Rules.add e.platform e.saving s.rules input e.now) refl
  where
    added :
        (o : Option (Rule × RuleStore))
        → Rules.add e.platform e.saving s.rules input e.now ≡ o
        → BothKept s (after_request s (handle_add_rule e s input))
    added none q = rw (q, handle_add_rule) (BothKept-refl s)
    added (some (stored, store)) q =
        let s' : DaemonState = record s { rules = store } in
        rw (q, handle_add_rule)
          (BothKept-trans s s' (publish (rule_added stored) s') (alike-BothKept s s' refl refl refl)
            (publish-BothKept (rule_added stored) s' (λ m. refl) (λ m. refl)))

remove_rule-BothKept :
    (e : Setting) (s : DaemonState) (id : ℕ) → BothKept s (handle_remove_rule e s id).1
unfolding handle_remove_rule
remove_rule-BothKept e s id = removed (Rules.remove e.platform e.saving s.rules id) refl
  where
    removed :
        (o : Option (Rule × RuleStore))
        → Rules.remove e.platform e.saving s.rules id ≡ o
        → BothKept s (handle_remove_rule e s id).1
    removed none q = rw (q, handle_remove_rule) (BothKept-refl s)
    removed (some (rule, store)) q =
        let s' : DaemonState = record s { rules = store } in
        rw (q, handle_remove_rule)
          (BothKept-trans s s' (publish (rule_removed id) s') (alike-BothKept s s' refl refl refl)
            (publish-BothKept (rule_removed id) s' (λ m. refl) (λ m. refl)))

set_paused-BothKept : (s : DaemonState) (paused : Bool) → BothKept s (handle_set_paused s paused).1
unfolding handle_set_paused
set_paused-BothKept s paused =
    let s' : DaemonState = record s { paused = paused } in
    BothKept-trans s s' (publish (paused_changed paused) s') (alike-BothKept s s' refl refl refl)
      (publish-BothKept (paused_changed paused) s' (λ m. refl) (λ m. refl))

pub dispatch-BothKept :
    (e : Setting) (s : DaemonState) (r : Request) → BothKept s (after_request s (dispatch e s r))
unfolding dispatch
dispatch-BothKept e s ping = BothKept-refl s
dispatch-BothKept e s get_status = BothKept-refl s
dispatch-BothKept e s get_network = BothKept-refl s
dispatch-BothKept e s get_processes = BothKept-refl s
dispatch-BothKept e s get_connections = BothKept-refl s
dispatch-BothKept e s get_top = BothKept-refl s
dispatch-BothKept e s list_rules = BothKept-refl s
dispatch-BothKept e s (add_rule rule) = add_rule-BothKept e s rule
dispatch-BothKept e s (remove_rule id) = remove_rule-BothKept e s id
dispatch-BothKept e s (set_paused paused) = set_paused-BothKept s paused
dispatch-BothKept e s subscribe = BothKept-refl s

announce_reaped-BothKept : (ids : List ℕ) (s : DaemonState) → BothKept s (announce_reaped ids s)
unfolding announce_reaped
announce_reaped-BothKept [] s = BothKept-refl s
announce_reaped-BothKept (id ∷ ids) s =
    let s' : DaemonState = publish (rule_removed id) s in
    BothKept-trans s s' (announce_reaped ids s')
      (publish-BothKept (rule_removed id) s (λ m. refl) (λ m. refl))
      (announce_reaped-BothKept ids s')

pub reap_once-BothKept : (e : Setting) (s : DaemonState) → BothKept s (reap_once e s)
unfolding reap_once
reap_once-BothKept e s =
    let reaped : List ℕ × RuleStore = Rules.reap_expired e.platform e.saving s.rules e.now in
    let s' : DaemonState = record s { rules = reaped.1 } in
    BothKept-trans s s' (announce_reaped reaped.0 s') (alike-BothKept s s' refl refl refl)
      (announce_reaped-BothKept reaped.0 s')

pub decide-BothKept :
    (a : AddrText) (s : DaemonState) (p : Arrival) → BothKept s (after_packet s (decide a s p))
decide-BothKept a s p = (decide-Kept flows a s p, decide-Kept processes a s p)
