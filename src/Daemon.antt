-- ===== src/Daemon.antt =====
-- The daemon's request handler and its periodic work: crates/daemon/src/main.rs. The set-up of
-- logging and of the runtime is not modelled.
pub mod TopApps
pub mod Blocking
pub mod Tasks
pub mod Main
use travelmode.Base.Map
use travelmode.Base.Parsing.{show_ℕ}
use travelmode.Base.{
  ℕ, Bool, true, false, List, [], ◌∷◌, ◌++◌, length, Option, none, some, Text, text, if◌then◌else◌,
}
use mathlib.Core.Option
use travelmode.Types.{
  Rule, RuleInput, block, action_beq, NetworkInfo, Status, Event, rule_added, rule_removed,
  paused_changed,
}
use travelmode.World.{World}
use travelmode.Conntrack.{AddrText}
use travelmode.FlowKill.{Command, Tools, kill_flows_for_exe}
use travelmode.Rules
use travelmode.Rules.{Platform, SaveRun, RuleStore}
use travelmode.State.{DaemonState, publish, uptime_secs, is_paused}
use travelmode.Ipc.{
  Request, ping, get_status, get_network, get_processes, get_connections, get_top, list_rules,
  add_rule, remove_rule, set_paused, subscribe, Response, pong, status, network, processes,
  connections, top, rules, ok, error,
}
use travelmode.Daemon.TopApps.{top_apps}

-- What surrounds one request: the version of the build, the clock, the tools of the system, and
-- how saving the rules goes.
pub record Setting : Type 0 where
  pub platform : Platform
  pub addresses : AddrText
  pub version : Text
  pub now : ℕ
  pub tools : Tools
  pub saving : SaveRun

-- What a request does outside the state: the commands it runs, and the task it spawns, which will
-- pause or resume the queue rule.
pub record Effects : Type 0 where
  pub commands : List Command
  pub toggle : Option Bool

abbrev pub Handled : Type 0
Handled = Response × DaemonState × Effects

abbrev pub answers : Response → DaemonState → Handled
answers response s = (response, s, record { commands = []; toggle = none })

abbrev pub no_network : NetworkInfo
no_network = record {
  interfaces = [];
  gateway = none;
  dns_servers = [];
  ssid = none;
  metered = none;
  primary_interface = none;
}

abbrev pub status_of : Setting → DaemonState → Status
status_of e s = record {
  version = e.version;
  uptime_secs = uptime_secs s e.now;
  paused = is_paused s;
  filtering_active = s.filtering_active;
  rules_count = Rules.count s.rules;
  tracked_connections = length s.connections;
  tracked_processes = length s.processes;
}

-- `none` is the panic of `RuleStore::add`.
unfoldable pub handle_add_rule : Setting → DaemonState → RuleInput → Option Handled
unfolding Rules.add kill_flows_for_exe
handle_add_rule e s input = elim (Rules.add e.platform e.saving s.rules input e.now) [
  | none ↦ none
  | some (stored, store) ↦
      let s' : DaemonState = publish (rule_added stored) (record s { rules = store }) in
      let killed : List Command =
        if action_beq stored.action block
        then (kill_flows_for_exe e.addresses e.tools s' stored.exe_path).0
        else [] in
      some (ok, s', record { commands = killed; toggle = none })
]

unfoldable pub handle_remove_rule : Setting → DaemonState → ℕ → Handled
unfolding Rules.remove
handle_remove_rule e s id = elim (Rules.remove e.platform e.saving s.rules id) [
  | none ↦ answers (error (text "no rule with id " ++ show_ℕ id)) s
  | some (rule, store) ↦ answers ok (publish (rule_removed id) (record s { rules = store }))
]

unfoldable pub handle_set_paused : DaemonState → Bool → Handled
handle_set_paused s paused = (
  ok,
  publish (paused_changed paused) (record s { paused = paused }),
  record { commands = []; toggle = some paused },
)

unfoldable pub dispatch : Setting → DaemonState → Request → Option Handled
unfolding handle_add_rule handle_remove_rule handle_set_paused top_apps uptime_secs is_paused
    Rules.count Rules.list
dispatch e s ping = some (answers pong s)
dispatch e s get_status = some (answers (status (status_of e s)) s)
dispatch e s get_network = some (answers (network (Option.get_or s.network no_network)) s)
dispatch e s get_processes = some (answers (processes (Map.values s.processes)) s)
dispatch e s get_connections = some (answers (connections (Map.values s.connections)) s)
dispatch e s get_top = some (answers (top (top_apps s e.now)) s)
dispatch e s list_rules = some (answers (rules (Rules.list s.rules)) s)
dispatch e s (add_rule rule) = handle_add_rule e s rule
dispatch e s (remove_rule id) = some (handle_remove_rule e s id)
dispatch e s (set_paused paused) = some (handle_set_paused s paused)
dispatch e s subscribe = some (answers (error (text "Subscribe is handled by the IPC layer")) s)

unfoldable pub announce_reaped : List ℕ → DaemonState → DaemonState
announce_reaped [] s = s
announce_reaped (id ∷ ids) s = announce_reaped ids (publish (rule_removed id) s)

-- One turn of `reaper_loop`.
unfoldable pub reap_once : Setting → DaemonState → DaemonState
unfolding Rules.reap_expired announce_reaped
reap_once e s =
    let (ids, store) = Rules.reap_expired e.platform e.saving s.rules e.now in
    announce_reaped ids (record s { rules = store })

-- `refresh_network`.
unfoldable pub refresh_network : NetworkInfo → DaemonState → DaemonState
refresh_network snapshot s = record s { network = some snapshot }

-- `shutdown`: the handle whose table is deleted, if there is one, and the state with its rules
-- saved.
unfoldable pub shutdown : Setting → DaemonState → Option ℕ × DaemonState
unfolding Rules.save
shutdown e s =
    (s.firewall, record s { firewall = none; rules = Rules.save e.platform e.saving s.rules })
