-- ===== src/State.antt =====
-- The daemon's shared state: crates/daemon/src/state.rs. `events` is every event published so far;
-- the broadcast channel hands them to subscribers and may drop some for a slow one.
pub mod Events
use travelmode.Base.Map
use travelmode.Base.Map.{Map}
use travelmode.Base.{
  ℕ, ◌-◌, ◌/◌, Bool, false, List, [], ◌∷◌, ◌++◌, Option, none, some, Text, FilePath, nat_key,
}
use travelmode.Types.{ConnectionInfo, Event, ProcessInfo, NetworkInfo, Protocol}
use travelmode.World.{World}
use travelmode.Attrib
use travelmode.Attrib.{Attributor, lookup}
use travelmode.Procs.{lookup_process}
use travelmode.Config.{Config}
use travelmode.Rules
use travelmode.Rules.{RuleStore, Platform, Disk}
use travelmode.Firewall.Throttle
use travelmode.Firewall.Throttle.{LogThrottle}

pub record DaemonState : Type 0 where
  pub config : Config
  pub started : ℕ
  pub paused : Bool
  pub filtering_active : Bool
  pub blocked_count : ℕ
  pub rules : RuleStore
  pub processes : Map ℕ ProcessInfo
  pub connections : Map Text ConnectionInfo
  pub attrib : Attributor
  pub block_log : LogThrottle
  pub events : List Event
  pub network : Option NetworkInfo
  -- The queue number of the nftables handle.
  pub firewall : Option ℕ

unfoldable pub new : Platform → Config → Disk → Bool → ℕ → DaemonState
unfolding Attrib.new Throttle.default Rules.load
new p config disk readable now = record {
  config = config;
  started = now;
  paused = false;
  filtering_active = false;
  blocked_count = 0;
  rules = Rules.load p config.rules_file disk readable now;
  processes = [];
  connections = [];
  attrib = Attrib.new;
  block_log = Throttle.default;
  events = [];
  network = none;
  firewall = none;
}

unfoldable pub uptime_secs : DaemonState → ℕ → ℕ
uptime_secs s now = (now - s.started) / 1000000000

unfoldable pub is_paused : DaemonState → Bool
is_paused s = s.paused

abbrev pub publish : Event → DaemonState → DaemonState
publish event s = record s { events = s.events ++ event ∷ [] }

abbrev pub Attribution : Type 0
Attribution = Option ℕ × Option Text × Option FilePath

of_process : ℕ → Option ProcessInfo → Attribution
of_process pid none = (some pid, none, none)
of_process pid (some p) = (some pid, some p.name, p.exe)

-- The owner of a found pid: from the scanner's map, or else from /proc directly.
unfoldable pub attribute_pid : World → Map ℕ ProcessInfo → ℕ → Attribution
unfolding of_process lookup_process
attribute_pid w processes pid = elim (Map.get pid processes) [
  | some p ↦ (some pid, some p.name, p.exe)
  | none ↦ of_process pid (lookup_process w pid)
]

unfoldable pub attribute : World → DaemonState → Protocol → ℕ → Attribution × DaemonState
unfolding attribute_pid lookup
attribute w s proto local_port =
    let (found, attrib) = lookup w s.attrib proto local_port in
    let s' : DaemonState = record s { attrib = attrib } in
    elim found [
      | none ↦ ((none, none, none), s')
      | some pid ↦ (attribute_pid w s.processes pid, s')
    ]
