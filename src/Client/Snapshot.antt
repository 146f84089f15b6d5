-- ===== src/Client/Snapshot.antt =====
-- The snapshot that a client starts from, and its one-second tick: crates/gui/src/state.rs.
use mathlib.Core.Option
use travelmode.Base.Map
use travelmode.Base.Map.{Map}
use travelmode.Base.{
  ℕ, ◌-◌, true, List, [], ◌∷◌, ◌++◌, length, some, Text, text_key, ltb, add_u64, retain,
}
use travelmode.Types.{Rule, Status, NetworkInfo, AppUsage, ConnectionInfo}
use travelmode.Client.{AppEntry, new_entry, ClientState, app_key, refresh_rule_flags}

abbrev pub add_conn : ConnectionInfo → ClientState → ClientState
add_conn conn s = record s {
  total_up = add_u64 s.total_up conn.bytes_sent;
  total_down = add_u64 s.total_down conn.bytes_recv;
  conn_order = s.conn_order ++ conn.key ∷ [];
  conns = Map.insert conn.key conn s.conns;
}

unfoldable pub add_conns : List ConnectionInfo → ClientState → ClientState
add_conns [] s = s
add_conns (conn ∷ conns) s = add_conns conns (add_conn conn s)

abbrev pub entry_of : AppUsage → AppEntry
entry_of usage = record (new_entry usage.name usage.exe) {
  bytes_sent = usage.bytes_sent;
  bytes_recv = usage.bytes_recv;
  connections = usage.connections;
}

unfoldable pub add_usages : List AppUsage → Map Text AppEntry → Map Text AppEntry
add_usages [] apps = apps
add_usages (usage ∷ top) apps =
    add_usages top (Map.insert (app_key usage.exe usage.name) (entry_of usage) apps)

abbrev pub settle_app : AppEntry → AppEntry
settle_app app = record app { prev_sent = app.bytes_sent; prev_recv = app.bytes_recv }

-- What follows the loops: the flags, and the counters that the speeds start from.
unfoldable pub settle : ClientState → ClientState
unfolding refresh_rule_flags
settle s =
    let s' : ClientState = refresh_rule_flags s in
    record s' {
      prev_total_up = s'.total_up;
      prev_total_down = s'.total_down;
      apps = Map.map_values settle_app s'.apps;
    }

unfoldable pub apply_snapshot :
    Status
    → NetworkInfo
    → List AppUsage
    → List ConnectionInfo
    → List Rule
    → ClientState
    → ClientState
unfolding add_conns add_usages settle
apply_snapshot status network top conns rules s = settle (
    add_conns conns (record s {
      connected = true;
      paused = status.paused;
      status = some status;
      network = some network;
      rules = rules;
      conns = [];
      conn_order = [];
      total_up = 0;
      total_down = 0;
      apps = add_usages top [];
    }))

abbrev pub tick_app : AppEntry → AppEntry
tick_app app = record app {
  speed_up = app.bytes_sent - app.prev_sent;
  speed_down = app.bytes_recv - app.prev_recv;
  prev_sent = app.bytes_sent;
  prev_recv = app.bytes_recv;
}

abbrev pub age : Status → Status
age status = record status { uptime_secs = add_u64 status.uptime_secs 1 }

unfoldable pub tick : ClientState → ClientState
tick s = record s {
  speed_up = s.total_up - s.prev_total_up;
  speed_down = s.total_down - s.prev_total_down;
  prev_total_up = s.total_up;
  prev_total_down = s.total_down;
  apps = Map.map_values tick_app s.apps;
  status = Option.map age s.status;
}

unfoldable pub active_app_count : ClientState → ℕ
active_app_count s = length (retain (λ a. ltb 0 a.connections) (Map.values s.apps))

unfoldable pub blocked_app_count : ClientState → ℕ
blocked_app_count s = length (retain (λ a. a.blocked) (Map.values s.apps))
