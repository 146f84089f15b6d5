-- ===== src/Client/Conns.antt =====
-- The connections that crates/gui/src/state.rs keeps have distinct keys.
use travelmode.Base.Map
use travelmode.Base.Map.{Map}
use travelmode.Base.Map.Keys.{insert-Distinct, remove-Distinct}
use travelmode.Base.{
  Bool, true, false, List, [], ◌∷◌, Text, text_key, ltb, length, Option-cases, Bool-cases, inl, inr,
}
use travelmode.Types.{
  Rule, Event, connection_opened, connection_updated, connection_closed, process_started,
  process_exited, rule_added, rule_removed, paused_changed, network_changed, ConnectionInfo, Status,
  NetworkInfo, AppUsage,
}
use travelmode.Client.{
  ClientState, max_connections, evict, enforce_conn_cap, refresh_rule_flags, upsert_conn,
  remove_conn, apply_event,
}
use travelmode.Client.Snapshot.{add_conn, add_conns, settle, apply_snapshot, tick}

evict-Distinct :
    (order : List Text) (conns : Map Text ConnectionInfo)
    → Map.Distinct conns
    → Map.Distinct (evict order conns).1
unfolding evict
evict-Distinct [] conns d = d
evict-Distinct (oldest ∷ order) conns d = elim (Bool-cases (ltb max_connections (length conns))) [
  | inl e ↦ rw e (evict-Distinct order (Map.remove oldest conns) (remove-Distinct oldest conns d))
  | inr e ↦ rw e d
]

upsert_conn-Distinct :
    (conn : ConnectionInfo) (is_open : Bool) (s : ClientState)
    → Map.Distinct s.conns
    → Map.Distinct (upsert_conn conn is_open s).conns
unfolding upsert_conn enforce_conn_cap
upsert_conn-Distinct conn is_open s d =
    evict-Distinct _ (Map.insert conn.key conn s.conns) (insert-Distinct conn.key conn s.conns d)

remove_conn-Distinct :
    (key : Text) (s : ClientState) → Map.Distinct s.conns → Map.Distinct (remove_conn key s).conns
unfolding remove_conn
remove_conn-Distinct key s d = elim (Option-cases (Map.get key s.conns)) [
  | inl e ↦ rw (e, remove_conn) d
  | inr (conn, e) ↦ rw (e, remove_conn) (remove-Distinct key s.conns d)
]

pub apply_event-Distinct :
    (event : Event) (s : ClientState)
    → Map.Distinct s.conns
    → Map.Distinct (apply_event event s).conns
unfolding apply_event refresh_rule_flags
apply_event-Distinct (connection_opened conn) s d = upsert_conn-Distinct conn true s d
apply_event-Distinct (connection_updated conn) s d = upsert_conn-Distinct conn false s d
apply_event-Distinct (connection_closed key) s d = remove_conn-Distinct key s d
apply_event-Distinct (rule_added rule) s d = d
apply_event-Distinct (rule_removed id) s d = d
apply_event-Distinct (paused_changed paused) s d = d
apply_event-Distinct (network_changed network) s d = d
apply_event-Distinct (process_started p) s d = d
apply_event-Distinct (process_exited pid) s d = d

add_conns-Distinct :
    (conns : List ConnectionInfo) (s : ClientState)
    → Map.Distinct s.conns
    → Map.Distinct (add_conns conns s).conns
unfolding add_conns
add_conns-Distinct [] s d = d
add_conns-Distinct (conn ∷ conns) s d =
    add_conns-Distinct conns (add_conn conn s) (insert-Distinct conn.key conn s.conns d)

pub apply_snapshot-Distinct :
    (status : Status) (network : NetworkInfo) (top : List AppUsage) (conns : List ConnectionInfo)
    (rules : List Rule) (s : ClientState)
    → Map.Distinct (apply_snapshot status network top conns rules s).conns
unfolding apply_snapshot settle refresh_rule_flags
apply_snapshot-Distinct status network top conns rules s = add_conns-Distinct conns _ tt

pub tick-Distinct : (s : ClientState) → Map.Distinct s.conns → Map.Distinct (tick s).conns
unfolding tick
tick-Distinct s d = d
