-- ===== src/Client.antt =====
-- The graphical client's state: crates/gui/src/state.rs. Snapshots and events are folded into one
-- `ClientState`, which the pages show.
pub mod Flags
pub mod Snapshot
pub mod Session
pub mod Cap
pub mod Apps
pub mod Conns
use travelmode.Base.Map
use travelmode.Base.Map.{Map}
use travelmode.Base.{
  ℕ, ◌-◌, Bool, true, false, not, ◌&&◌, List, [], ◌∷◌, ◌++◌, length, Option, none, some, Text, text,
  text_beq, text_key, FilePath, path_beq, ltb, nat_beq, add_u64, add_u32, find, retain, is_some,
  if◌then◌else◌,
}
use mathlib.Core.Option
use travelmode.Types.{
  Rule, block, action_beq, Status, NetworkInfo, AppUsage, ConnectionInfo, Event, connection_opened,
  connection_updated, connection_closed, process_started, process_exited, rule_added, rule_removed,
  paused_changed, network_changed,
}

abbrev pub max_connections : ℕ
max_connections = 500

pub record AppEntry : Type 0 where
  pub name : Text
  pub exe : Option FilePath
  pub bytes_sent : ℕ
  pub bytes_recv : ℕ
  pub connections : ℕ
  pub blocked : Bool
  pub block_rule_id : Option ℕ
  pub speed_up : ℕ
  pub speed_down : ℕ
  pub prev_sent : ℕ
  pub prev_recv : ℕ

-- A new entry with `..Default::default()`.
abbrev pub new_entry : Text → Option FilePath → AppEntry
new_entry name exe = record {
  name = name;
  exe = exe;
  bytes_sent = 0;
  bytes_recv = 0;
  connections = 0;
  blocked = false;
  block_rule_id = none;
  speed_up = 0;
  speed_down = 0;
  prev_sent = 0;
  prev_recv = 0;
}

pub record ClientState : Type 0 where
  pub connected : Bool
  pub status : Option Status
  pub network : Option NetworkInfo
  pub rules : List Rule
  pub paused : Bool
  pub apps : Map Text AppEntry
  pub conns : Map Text ConnectionInfo
  pub conn_order : List Text
  pub total_up : ℕ
  pub total_down : ℕ
  pub speed_up : ℕ
  pub speed_down : ℕ
  pub prev_total_up : ℕ
  pub prev_total_down : ℕ

abbrev pub app_key : Option FilePath → Text → Text
app_key (some p) name = p.display
app_key none name = text "name:" ++ name

-- The application of a connection.
abbrev pub conn_app : ConnectionInfo → Text
conn_app conn = app_key conn.exe (Option.get_or conn.process_name (text "unknown"))

-- The Block rule that an application's entry points to.
abbrev pub rule_for : List Rule → Option FilePath → Option Rule
rule_for rules none = none
rule_for rules (some exe) = find (λ r. action_beq r.action block && path_beq r.exe_path exe) rules

abbrev pub id_of : Option Rule → Option ℕ
id_of none = none
id_of (some r) = some r.id

abbrev pub apply_rule_flags : List Rule → AppEntry → AppEntry
apply_rule_flags rules app = record app {
  blocked = is_some (rule_for rules app.exe);
  block_rule_id = id_of (rule_for rules app.exe);
}

unfoldable pub add_blocked_apps : List Rule → Map Text AppEntry → Map Text AppEntry
add_blocked_apps [] apps = apps
add_blocked_apps (rule ∷ rules) apps = add_blocked_apps rules (
    if action_beq rule.action block
    then Map.update_or (app_key (some rule.exe_path) rule.name)
        (new_entry rule.name (some rule.exe_path)) (λ app. app) apps
    else apps)

-- An application with no connections and no Block rule leaves the page.
abbrev pub is_empty_app : AppEntry → Bool
is_empty_app app = nat_beq app.connections 0 && not app.blocked

unfoldable pub empty_apps : Map Text AppEntry → List Text
empty_apps [] = []
empty_apps ((key, app) ∷ apps) =
    let rest = empty_apps apps in if is_empty_app app then key ∷ rest else rest

unfoldable pub remove_keys : List Text → Map Text AppEntry → Map Text AppEntry
remove_keys [] apps = apps
remove_keys (key ∷ keys) apps = remove_keys keys (Map.remove key apps)

unfoldable pub refresh_rule_flags : ClientState → ClientState
unfolding add_blocked_apps empty_apps remove_keys
refresh_rule_flags s =
    let flagged : Map Text AppEntry =
      Map.map_values (apply_rule_flags s.rules) (add_blocked_apps s.rules s.apps) in
    record s { apps = remove_keys (empty_apps flagged) flagged }

-- The loop pops from the front of the order while there are too many connections.
unfoldable pub evict : List Text → Map Text ConnectionInfo → List Text × Map Text ConnectionInfo
evict [] conns = ([], conns)
evict (oldest ∷ order) conns =
    let rest = evict order (Map.remove oldest conns) in
    if ltb max_connections (length conns) then rest else (oldest ∷ order, conns)

unfoldable pub enforce_conn_cap : ClientState → ClientState
unfolding evict
enforce_conn_cap s =
    let (order, conns) = evict s.conn_order s.conns in
    record s { conn_order = order; conns = conns }

-- The bytes since the flow was last seen; ℕ's subtraction saturates, as the source's does.
abbrev pub sent_since : Option ConnectionInfo → ConnectionInfo → ℕ
sent_since none conn = conn.bytes_sent
sent_since (some old) conn = conn.bytes_sent - old.bytes_sent

abbrev pub recv_since : Option ConnectionInfo → ConnectionInfo → ℕ
recv_since none conn = conn.bytes_recv
recv_since (some old) conn = conn.bytes_recv - old.bytes_recv

abbrev pub count_conn :
    List Rule → Option ConnectionInfo → ConnectionInfo → Bool → AppEntry → AppEntry
count_conn rules old conn is_open app = apply_rule_flags rules (record app {
  bytes_sent = add_u64 app.bytes_sent (sent_since old conn);
  bytes_recv = add_u64 app.bytes_recv (recv_since old conn);
  connections = if is_open && not (is_some old) then add_u32 app.connections 1 else app.connections;
})

unfoldable pub upsert_conn : ConnectionInfo → Bool → ClientState → ClientState
unfolding enforce_conn_cap
upsert_conn conn is_open s =
    let old : Option ConnectionInfo = Map.get conn.key s.conns in
    enforce_conn_cap (record s {
      total_up = add_u64 s.total_up (sent_since old conn);
      total_down = add_u64 s.total_down (recv_since old conn);
      apps =
          Map.update_or (conn_app conn)
            (new_entry (Option.get_or conn.process_name (text "unknown")) conn.exe)
            (count_conn s.rules old conn is_open) s.apps;
      conn_order = if is_some old then s.conn_order else s.conn_order ++ conn.key ∷ [];
      conns = Map.insert conn.key conn s.conns;
    })

abbrev pub close_one : AppEntry → AppEntry
close_one app = record app { connections = app.connections - 1 }

unfoldable pub leave_app : Text → Map Text AppEntry → Map Text AppEntry
leave_app key apps = elim (Map.get key apps) [
  | none ↦ apps
  | some app ↦
      if is_empty_app (close_one app)
      then Map.remove key apps
      else Map.insert key (close_one app) apps
]

unfoldable pub remove_conn : Text → ClientState → ClientState
unfolding leave_app
remove_conn key s = elim (Map.get key s.conns) [
  | none ↦ s
  | some conn ↦ record s {
    conns = Map.remove key s.conns;
    conn_order = retain (λ k. not (text_beq k key)) s.conn_order;
    apps = leave_app (conn_app conn) s.apps;
  }
]

unfoldable pub apply_event : Event → ClientState → ClientState
unfolding upsert_conn remove_conn refresh_rule_flags
apply_event (connection_opened conn) s = upsert_conn conn true s
apply_event (connection_updated conn) s = upsert_conn conn false s
apply_event (connection_closed key) s = remove_conn key s
apply_event (rule_added rule) s =
    refresh_rule_flags
      (record s { rules = retain (λ r. not (nat_beq r.id rule.id)) s.rules ++ rule ∷ [] })
apply_event (rule_removed id) s =
    refresh_rule_flags (record s { rules = retain (λ r. not (nat_beq r.id id)) s.rules })
apply_event (paused_changed paused) s = record s { paused = paused }
apply_event (network_changed network) s = record s { network = some network }
apply_event (process_started p) s = s
apply_event (process_exited pid) s = s
