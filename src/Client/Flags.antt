-- ===== src/Client/Flags.antt =====
-- The switches of the applications page follow the rules: crates/gui/src/state.rs.
use mathlib.Core.Path.{subst}
use mathlib.Core.Option
use travelmode.Base.Map
use travelmode.Base.Map.{Map, get-insert, get-remove, get-map_values, get-update_or}
use travelmode.Base.{
  ◌≡◌, refl, Bool, true, false, List, [], ◌∷◌, some, Text, text_key, text_beq, arith, is_some,
  Option-cases, Bool-cases, inl, inr, retain, not, nat_beq, ◌++◌, text,
}
use travelmode.Types.{
  Rule, Event, connection_opened, connection_updated, connection_closed, process_started,
  process_exited, rule_added, rule_removed, paused_changed, network_changed, ConnectionInfo,
}
use travelmode.Client.{
  is_empty_app, conn_app, new_entry, AppEntry, ClientState, rule_for, id_of, apply_rule_flags,
  add_blocked_apps, empty_apps, remove_keys, refresh_rule_flags, enforce_conn_cap, upsert_conn,
  count_conn, leave_app, close_one, remove_conn, apply_event,
}

-- The entry is marked blocked, with the id of a Block rule for its executable, exactly when the
-- rules have one.
abbrev pub IsFlagged : List Rule → AppEntry → Type 0
IsFlagged rules app =
    (app.blocked ≡ is_some (rule_for rules app.exe))
    × (app.block_rule_id ≡ id_of (rule_for rules app.exe))

abbrev pub AreFlagged : List Rule → Map Text AppEntry → Type 0
AreFlagged rules apps =
    (k : Text) (app : AppEntry) → Map.get k apps ≡ some app → IsFlagged rules app

remove_keys-AreFlagged :
    (rules : List Rule) (keys : List Text) (apps : Map Text AppEntry)
    → AreFlagged rules apps
    → AreFlagged rules (remove_keys keys apps)
unfolding remove_keys
remove_keys-AreFlagged rules [] apps h = h
remove_keys-AreFlagged rules (key ∷ keys) apps h =
    remove_keys-AreFlagged rules keys (Map.remove key apps)
      (λ k app g. h k app (ground (arith, get-remove key k apps)))

map_values-AreFlagged :
    (rules : List Rule) (apps : Map Text AppEntry)
    → AreFlagged rules (Map.map_values (apply_rule_flags rules) apps)
map_values-AreFlagged rules apps k app g = elim (Option-cases (Map.get k apps)) [
  | inl e ↦ absurd (ground (arith, get-map_values k (apply_rule_flags rules) apps))
  | inr (a, e) ↦
      let same : apply_rule_flags rules a ≡ app =
        ground (arith, get-map_values k (apply_rule_flags rules) apps) in
      (ground (arith, same), ground (arith, same))
]

pub refresh_rule_flags-AreFlagged :
    (s : ClientState) → AreFlagged s.rules (refresh_rule_flags s).apps
unfolding refresh_rule_flags
refresh_rule_flags-AreFlagged s =
    let flagged : Map Text AppEntry =
      Map.map_values (apply_rule_flags s.rules) (add_blocked_apps s.rules s.apps) in
    remove_keys-AreFlagged s.rules (empty_apps flagged) flagged
      (map_values-AreFlagged s.rules (add_blocked_apps s.rules s.apps))

leave_app-AreFlagged :
    (rules : List Rule) (key : Text) (apps : Map Text AppEntry)
    → AreFlagged rules apps
    → AreFlagged rules (leave_app key apps)
unfolding leave_app
leave_app-AreFlagged rules key apps h k app g = elim (Option-cases (Map.get key apps)) [
  | inl e ↦ h k app (ground arith)
  | inr (a, e) ↦ elim (Bool-cases (is_empty_app (close_one a))) [
    | inl f ↦ h k app (ground (arith, get-remove key k apps))
    | inr f ↦ elim (Bool-cases (text_beq key k)) [
      | inl t ↦
          let same : close_one a ≡ app = ground (arith, get-insert key k (close_one a) apps) in
          subst (IsFlagged rules) same (h key a e)
      | inr t ↦ h k app (ground (arith, get-insert key k (close_one a) apps))
    ]
  ]
]

update_or-AreFlagged :
    (rules : List Rule) (key : Text) (d : AppEntry) (f : AppEntry → AppEntry)
    (apps : Map Text AppEntry)
    → ((a : AppEntry) → IsFlagged rules (f a))
    → AreFlagged rules apps
    → AreFlagged rules (Map.update_or key d f apps)
update_or-AreFlagged rules key d f apps flags h k app g = elim (Bool-cases (text_beq key k)) [
  | inl t ↦
      let same : f (Option.get_or (Map.get key apps) d) ≡ app =
        ground (arith, get-update_or key k d f apps) in
      subst (IsFlagged rules) same (flags (Option.get_or (Map.get key apps) d))
  | inr t ↦ h k app (ground (arith, get-update_or key k d f apps))
]

upsert_conn-AreFlagged :
    (conn : ConnectionInfo) (is_open : Bool) (s : ClientState)
    → AreFlagged s.rules s.apps
    → AreFlagged (upsert_conn conn is_open s).rules (upsert_conn conn is_open s).apps
unfolding upsert_conn enforce_conn_cap
upsert_conn-AreFlagged conn is_open s h =
    update_or-AreFlagged s.rules (conn_app conn)
      (new_entry (Option.get_or conn.process_name (text "unknown")) conn.exe)
      (count_conn s.rules (Map.get conn.key s.conns) conn is_open) s.apps (λ a. (refl, refl)) h

remove_conn-AreFlagged :
    (key : Text) (s : ClientState)
    → AreFlagged s.rules s.apps
    → AreFlagged (remove_conn key s).rules (remove_conn key s).apps
unfolding remove_conn
remove_conn-AreFlagged key s h = elim (Option-cases (Map.get key s.conns)) [
  | inl e ↦ rw (e, remove_conn) h
  | inr (conn, e) ↦ rw (e, remove_conn) (leave_app-AreFlagged s.rules (conn_app conn) s.apps h)
]

-- Whatever event arrives, afterwards every application that is shown is switched off exactly when a
-- rule that the client knows blocks it, and then has the id of such a rule.
pub apply_event-AreFlagged :
    (event : Event) (s : ClientState)
    → AreFlagged s.rules s.apps
    → AreFlagged (apply_event event s).rules (apply_event event s).apps
unfolding apply_event
apply_event-AreFlagged (connection_opened conn) s h = upsert_conn-AreFlagged conn true s h
apply_event-AreFlagged (connection_updated conn) s h = upsert_conn-AreFlagged conn false s h
apply_event-AreFlagged (connection_closed key) s h = remove_conn-AreFlagged key s h
apply_event-AreFlagged (rule_added rule) s h =
    refresh_rule_flags-AreFlagged
      (record s { rules = retain (λ r. not (nat_beq r.id rule.id)) s.rules ++ rule ∷ [] })
apply_event-AreFlagged (rule_removed id) s h =
    refresh_rule_flags-AreFlagged (record s { rules = retain (λ r. not (nat_beq r.id id)) s.rules })
apply_event-AreFlagged (paused_changed paused) s h = h
apply_event-AreFlagged (network_changed network) s h = h
apply_event-AreFlagged (process_started p) s h = h
apply_event-AreFlagged (process_exited pid) s h = h
