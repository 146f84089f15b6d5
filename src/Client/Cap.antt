-- ===== src/Client/Cap.antt =====
-- The cap on the connections that the graphical client keeps: crates/gui/src/state.rs.
use travelmode.Base.Map
use travelmode.Base.Map.{Map, get-insert, get-remove, get_congr}
use travelmode.Base.{
  ◌≡◌, ◌≤◌, refl, Bool, true, false, not, ◌||◌, List, [], ◌∷◌, ◌++◌, length, Text, text_key,
  text_beq, text_beq_refl, text_beq_congr, arith, is_some, any, any-append, retain, ltb,
  Option-cases, Bool-cases, inl, inr, if◌then◌else◌,
}
use travelmode.Types.{
  Rule, connection_opened, connection_updated, connection_closed, process_started, process_exited,
  rule_added, rule_removed, paused_changed, network_changed, ConnectionInfo, Status, NetworkInfo,
  AppUsage,
}
use travelmode.Client.{
  ClientState, max_connections, evict, enforce_conn_cap, upsert_conn, remove_conn, apply_event,
  refresh_rule_flags,
}
use travelmode.Client.Snapshot.{add_conn, add_conns, apply_snapshot, settle, tick}
use travelmode.Client.Session.{Turn, arrived, ticked, turns}

-- The order has every connection's key.
abbrev Listed : List Text → Map Text ConnectionInfo → Type 0
Listed order conns =
    (k : Text) → Map.contains_key k conns ≡ true → any (λ j. text_beq j k) order ≡ true

Listed-nil : (conns : Map Text ConnectionInfo) → Listed [] conns → length conns ≡ 0
unfolding Map.contains_key Map.get
Listed-nil [] h = refl
Listed-nil ((k, c) ∷ conns) h = absurd (ground (arith, h k, text_beq_refl k))

Listed-remove :
    (oldest : Text) (order : List Text) (conns : Map Text ConnectionInfo)
    → Listed (oldest ∷ order) conns
    → Listed order (Map.remove oldest conns)
unfolding Map.contains_key
Listed-remove oldest order conns h k e = ground (arith, h k, get-remove oldest k conns)

evict-Listed :
    (order : List Text) (conns : Map Text ConnectionInfo)
    → Listed order conns
    → Listed (evict order conns).0 (evict order conns).1
unfolding evict
evict-Listed [] conns h = h
evict-Listed (oldest ∷ order) conns h = elim (Bool-cases (ltb max_connections (length conns))) [
  | inl e ↦ rw e (evict-Listed order (Map.remove oldest conns) (Listed-remove oldest order conns h))
  | inr e ↦ rw e h
]

length-evict :
    (order : List Text) (conns : Map Text ConnectionInfo)
    → Listed order conns
    → length (evict order conns).1 ≤ max_connections
unfolding evict
length-evict [] conns h = ground (arith, Listed-nil conns h)
length-evict (oldest ∷ order) conns h = elim (Bool-cases (ltb max_connections (length conns))) [
  | inl e ↦ rw e (length-evict order (Map.remove oldest conns) (Listed-remove oldest order conns h))
  | inr e ↦ rw e (ground arith)
]

length-remove : (k : Text) (m : Map Text ConnectionInfo) → length (Map.remove k m) ≤ length m
unfolding Map.remove
length-remove k [] = ground arith
length-remove k ((j, c) ∷ m) = ground (arith, length-remove k m)

any-retain_other :
    (key k : Text) (order : List Text)
    → text_beq key k ≡ false
    → any (λ j. text_beq j k) order ≡ true
    → any (λ j. text_beq j k) (retain (λ j. not (text_beq j key)) order) ≡ true
any-retain_other key k [] n h = h
any-retain_other key k (j ∷ order) n h =
    ground (arith, text_beq_congr j key k, any-retain_other key k order n)

insert-Listed :
    (conn : ConnectionInfo) (order : List Text) (conns : Map Text ConnectionInfo)
    → Listed order conns
    → Listed
        (if is_some (Map.get conn.key conns) then order else order ++ conn.key ∷ [])
        (Map.insert conn.key conn conns)
unfolding Map.contains_key
insert-Listed conn order conns h k e = ground (
  arith,
  h k,
  get-insert conn.key k conn conns,
  get_congr conn.key k conns,
  any-append (λ j. text_beq j k) order (conn.key ∷ []),
)

pushed-Listed :
    (conn : ConnectionInfo) (order : List Text) (conns : Map Text ConnectionInfo)
    → Listed order conns
    → Listed (order ++ conn.key ∷ []) (Map.insert conn.key conn conns)
unfolding Map.contains_key
pushed-Listed conn order conns h k e = ground (
  arith,
  h k,
  get-insert conn.key k conn conns,
  any-append (λ j. text_beq j k) order (conn.key ∷ []),
)

add_conns-Listed :
    (cs : List ConnectionInfo) (s : ClientState)
    → Listed s.conn_order s.conns
    → Listed (add_conns cs s).conn_order (add_conns cs s).conns
unfolding add_conns
add_conns-Listed [] s h = h
add_conns-Listed (c ∷ cs) s h =
    add_conns-Listed cs (add_conn c s) (pushed-Listed c s.conn_order s.conns h)

-- The order is complete and, once it has been enforced, so is the cap.
abbrev IsCapped : Bool → ClientState → Type 0
IsCapped enforced s =
    Listed s.conn_order s.conns × (enforced ≡ true → length s.conns ≤ max_connections)

upsert_conn-IsCapped :
    (conn : ConnectionInfo) (is_open : Bool) (s : ClientState)
    → Listed s.conn_order s.conns
    → IsCapped true (upsert_conn conn is_open s)
unfolding upsert_conn enforce_conn_cap
upsert_conn-IsCapped conn is_open s h =
    let order : List Text =
      if is_some (Map.get conn.key s.conns) then s.conn_order else s.conn_order ++ conn.key ∷ [] in
    let conns : Map Text ConnectionInfo = Map.insert conn.key conn s.conns in
    let listed : Listed order conns = insert-Listed conn s.conn_order s.conns h in
    (evict-Listed order conns listed, λ _. length-evict order conns listed)

remove_conn-IsCapped :
    (key : Text) (enforced : Bool) (s : ClientState)
    → IsCapped enforced s
    → IsCapped enforced (remove_conn key s)
unfolding remove_conn Map.contains_key
remove_conn-IsCapped key enforced s (h, c) = elim (Option-cases (Map.get key s.conns)) [
  | inl e ↦ rw (e, remove_conn) (h, c)
  | inr (conn, e) ↦
      rw (e, remove_conn)
        (
          λ k g.
              any-retain_other key k s.conn_order (ground (arith, get-remove key k s.conns))
                (h k (ground (arith, get-remove key k s.conns))),
          λ t. ground (arith, c t, length-remove key s.conns),
        )
]

-- The events that enforce the cap.
abbrev pub is_upsert : Turn → Bool
is_upsert ticked = false
is_upsert (arrived (connection_opened conn)) = true
is_upsert (arrived (connection_updated conn)) = true
is_upsert (arrived _) = false

turn-IsCapped :
    (t : Turn) (enforced : Bool) (s : ClientState)
    → IsCapped enforced s
    → IsCapped (is_upsert t || enforced) (turns (t ∷ []) s)
unfolding turns apply_event tick refresh_rule_flags
turn-IsCapped ticked enforced s c = c
turn-IsCapped (arrived (connection_opened conn)) enforced s c = upsert_conn-IsCapped conn true s c.0
turn-IsCapped (arrived (connection_updated conn)) enforced s c =
    upsert_conn-IsCapped conn false s c.0
turn-IsCapped (arrived (connection_closed key)) enforced s c = remove_conn-IsCapped key enforced s c
turn-IsCapped (arrived (process_started p)) enforced s c = c
turn-IsCapped (arrived (process_exited pid)) enforced s c = c
turn-IsCapped (arrived (rule_added rule)) enforced s c = c
turn-IsCapped (arrived (rule_removed id)) enforced s c = c
turn-IsCapped (arrived (paused_changed paused)) enforced s c = c
turn-IsCapped (arrived (network_changed network)) enforced s c = c

abbrev enforces : List Turn → Bool → Bool
enforces [] enforced = enforced
enforces (t ∷ ts) enforced = enforces ts (is_upsert t || enforced)

enforces-any :
    (ts : List Turn) (enforced : Bool) → enforces ts enforced ≡ (any is_upsert ts || enforced)
enforces-any [] enforced = refl
enforces-any (t ∷ ts) enforced = ground (arith, enforces-any ts (is_upsert t || enforced))

turns-cons :
    (t : Turn) (ts : List Turn) (s : ClientState) → turns (t ∷ ts) s ≡ turns ts (turns (t ∷ []) s)
unfolding turns
turns-cons ticked ts s = refl
turns-cons (arrived e) ts s = refl

turns-IsCapped :
    (ts : List Turn) (enforced : Bool) (s : ClientState)
    → IsCapped enforced s
    → IsCapped (enforces ts enforced) (turns ts s)
unfolding turns
turns-IsCapped [] enforced s c = c
turns-IsCapped (t ∷ ts) enforced s c =
    rw (turns-cons t ts s) (
      turns-IsCapped ts (is_upsert t || enforced) (turns (t ∷ []) s) (turn-IsCapped t enforced s c))

snapshot-IsCapped :
    (status : Status) (network : NetworkInfo) (top : List AppUsage) (conns : List ConnectionInfo)
    (rules : List Rule) (s : ClientState)
    → IsCapped false (apply_snapshot status network top conns rules s)
unfolding apply_snapshot settle refresh_rule_flags Map.contains_key Map.get
snapshot-IsCapped status network top conns rules s =
    (add_conns-Listed conns _ (λ k e. absurd (ground arith)), λ e. absurd (ground arith))

-- In every session, from the first event on that opens or updates a connection, the client keeps
-- 500 connections at most, however many the snapshot had.
pub length-turns-conns :
    (status : Status) (network : NetworkInfo) (top : List AppUsage) (conns : List ConnectionInfo)
    (rules : List Rule) (s : ClientState) (ts : List Turn)
    → any is_upsert ts ≡ true
    → length (turns ts (apply_snapshot status network top conns rules s)).conns ≤ max_connections
length-turns-conns status network top conns rules s ts h =
    let start : ClientState = apply_snapshot status network top conns rules s in
    (turns-IsCapped ts false start (snapshot-IsCapped status network top conns rules s)).1
      (ground (arith, enforces-any ts false))
