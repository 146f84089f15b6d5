-- ===== src/Client/Apps.antt =====
-- The applications that crates/gui/src/state.rs keeps have distinct keys.
use travelmode.Base.Map
use travelmode.Base.Map.{Map}
use travelmode.Base.Map.Keys.{
  insert-Distinct, remove-Distinct, update_or-Distinct, map_values-Distinct,
}
use travelmode.Base.{
  ◌≡◌, refl, Bool, true, false, List, [], ◌∷◌, Option, Text, text_key, Option-cases, Bool-cases,
  inl, inr, text, retain, not, nat_beq, ◌++◌,
}
use mathlib.Core.Option
use travelmode.Types.{
  Rule, block, action_beq, Event, connection_opened, connection_updated, connection_closed,
  process_started, process_exited, rule_added, rule_removed, paused_changed, network_changed,
  ConnectionInfo, Status, NetworkInfo, AppUsage,
}
use travelmode.Client.{
  AppEntry, ClientState, app_key, conn_app, new_entry, apply_rule_flags, count_conn,
  add_blocked_apps, empty_apps, remove_keys, refresh_rule_flags, upsert_conn, enforce_conn_cap,
  leave_app, close_one, is_empty_app, remove_conn, apply_event,
}
use travelmode.Client.Snapshot.{
  add_conn, add_conns, entry_of, add_usages, settle, settle_app, apply_snapshot, tick, tick_app,
}
use travelmode.Client.Session.{Turn, arrived, ticked, turns}

add_blocked_apps-Distinct :
    (rules : List Rule) (apps : Map Text AppEntry)
    → Map.Distinct apps
    → Map.Distinct (add_blocked_apps rules apps)
unfolding add_blocked_apps
add_blocked_apps-Distinct [] apps d = d
add_blocked_apps-Distinct (rule ∷ rules) apps d = elim (Bool-cases (action_beq rule.action block)) [
  | inl e ↦ rw e (
      add_blocked_apps-Distinct rules _ (
        update_or-Distinct (app_key (Option.some rule.exe_path) rule.name)
          (new_entry rule.name (Option.some rule.exe_path)) (λ app. app) apps d))
  | inr e ↦ rw e (add_blocked_apps-Distinct rules apps d)
]

remove_keys-Distinct :
    (keys : List Text) (apps : Map Text AppEntry)
    → Map.Distinct apps
    → Map.Distinct (remove_keys keys apps)
unfolding remove_keys
remove_keys-Distinct [] apps d = d
remove_keys-Distinct (key ∷ keys) apps d =
    remove_keys-Distinct keys (Map.remove key apps) (remove-Distinct key apps d)

refresh_rule_flags-Distinct :
    (s : ClientState) → Map.Distinct s.apps → Map.Distinct (refresh_rule_flags s).apps
unfolding refresh_rule_flags
refresh_rule_flags-Distinct s d =
    let flagged : Map Text AppEntry =
      Map.map_values (apply_rule_flags s.rules) (add_blocked_apps s.rules s.apps) in
    remove_keys-Distinct (empty_apps flagged) flagged (
      map_values-Distinct (apply_rule_flags s.rules) (add_blocked_apps s.rules s.apps)
        (add_blocked_apps-Distinct s.rules s.apps d))

upsert_conn-Distinct :
    (conn : ConnectionInfo) (is_open : Bool) (s : ClientState)
    → Map.Distinct s.apps
    → Map.Distinct (upsert_conn conn is_open s).apps
unfolding upsert_conn enforce_conn_cap
upsert_conn-Distinct conn is_open s d =
    update_or-Distinct (conn_app conn)
      (new_entry (Option.get_or conn.process_name (text "unknown")) conn.exe)
      (count_conn s.rules (Map.get conn.key s.conns) conn is_open) s.apps d

leave_app-Distinct :
    (key : Text) (apps : Map Text AppEntry) → Map.Distinct apps → Map.Distinct (leave_app key apps)
unfolding leave_app
leave_app-Distinct key apps d = elim (Option-cases (Map.get key apps)) [
  | inl e ↦ rw (e, leave_app) d
  | inr (app, e) ↦ elim (Bool-cases (is_empty_app (close_one app))) [
    | inl t ↦ rw (e, leave_app, t) (remove-Distinct key apps d)
    | inr t ↦ rw (e, leave_app, t) (insert-Distinct key (close_one app) apps d)
  ]
]

remove_conn-Distinct :
    (key : Text) (s : ClientState) → Map.Distinct s.apps → Map.Distinct (remove_conn key s).apps
unfolding remove_conn
remove_conn-Distinct key s d = elim (Option-cases (Map.get key s.conns)) [
  | inl e ↦ rw (e, remove_conn) d
  | inr (conn, e) ↦ rw (e, remove_conn) (leave_app-Distinct (conn_app conn) s.apps d)
]

pub apply_event-Distinct :
    (event : Event) (s : ClientState)
    → Map.Distinct s.apps
    → Map.Distinct (apply_event event s).apps
unfolding apply_event
apply_event-Distinct (connection_opened conn) s d = upsert_conn-Distinct conn true s d
apply_event-Distinct (connection_updated conn) s d = upsert_conn-Distinct conn false s d
apply_event-Distinct (connection_closed key) s d = remove_conn-Distinct key s d
apply_event-Distinct (rule_added rule) s d =
    refresh_rule_flags-Distinct
      (record s { rules = retain (λ r. not (nat_beq r.id rule.id)) s.rules ++ rule ∷ [] }) d
apply_event-Distinct (rule_removed id) s d =
    refresh_rule_flags-Distinct (record s { rules = retain (λ r. not (nat_beq r.id id)) s.rules }) d
apply_event-Distinct (paused_changed paused) s d = d
apply_event-Distinct (network_changed network) s d = d
apply_event-Distinct (process_started p) s d = d
apply_event-Distinct (process_exited pid) s d = d

add_usages-Distinct :
    (top : List AppUsage) (apps : Map Text AppEntry)
    → Map.Distinct apps
    → Map.Distinct (add_usages top apps)
unfolding add_usages
add_usages-Distinct [] apps d = d
add_usages-Distinct (usage ∷ top) apps d =
    add_usages-Distinct top _
      (insert-Distinct (app_key usage.exe usage.name) (entry_of usage) apps d)

add_conns-apps : (conns : List ConnectionInfo) (s : ClientState) → (add_conns conns s).apps ≡ s.apps
unfolding add_conns
add_conns-apps [] s = refl
add_conns-apps (conn ∷ conns) s = add_conns-apps conns (add_conn conn s)

settle-Distinct : (s : ClientState) → Map.Distinct s.apps → Map.Distinct (settle s).apps
unfolding settle
settle-Distinct s d =
    map_values-Distinct settle_app (refresh_rule_flags s).apps (refresh_rule_flags-Distinct s d)

pub apply_snapshot-Distinct :
    (status : Status) (network : NetworkInfo) (top : List AppUsage) (conns : List ConnectionInfo)
    (rules : List Rule) (s : ClientState)
    → Map.Distinct (apply_snapshot status network top conns rules s).apps
unfolding apply_snapshot
apply_snapshot-Distinct status network top conns rules s =
    settle-Distinct (add_conns conns _)
      (rw (add_conns-apps conns _) (add_usages-Distinct top [] tt))

pub tick-Distinct : (s : ClientState) → Map.Distinct s.apps → Map.Distinct (tick s).apps
unfolding tick
tick-Distinct s d = map_values-Distinct tick_app s.apps d

turns-Distinct :
    (ts : List Turn) (s : ClientState) → Map.Distinct s.apps → Map.Distinct (turns ts s).apps
unfolding turns
turns-Distinct [] s d = d
turns-Distinct (arrived event ∷ ts) s d =
    turns-Distinct ts (apply_event event s) (apply_event-Distinct event s d)
turns-Distinct (ticked ∷ ts) s d = turns-Distinct ts (tick s) (tick-Distinct s d)

-- Throughout a session the applications have distinct keys.
pub session-Distinct :
    (status : Status) (network : NetworkInfo) (top : List AppUsage) (conns : List ConnectionInfo)
    (rules : List Rule) (s : ClientState) (ts : List Turn)
    → Map.Distinct (turns ts (apply_snapshot status network top conns rules s)).apps
session-Distinct status network top conns rules s ts =
    turns-Distinct ts (apply_snapshot status network top conns rules s)
      (apply_snapshot-Distinct status network top conns rules s)
