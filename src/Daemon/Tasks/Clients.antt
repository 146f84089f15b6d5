-- ===== src/Daemon/Tasks/Clients.antt =====
-- What a graphical client shows of the daemon's rules under every interleaving of the daemon's
-- tasks: crates/daemon/src/main.rs with `apply_event` of crates/gui/src/state.rs.
use travelmode.Base.Map
use travelmode.Base.{
  ℕ, ◌+◌, ◌<◌, ◌≡◌, ◌∙◌, refl, ap, Bool, true, ◌&&◌, List, [], ◌∷◌, some, Text, FilePath, text_key,
  arith, length, any, find, is_some, u64_mod, path_beq, any-of_imp,
}
use travelmode.Types.{
  Rule, Event, connection_opened, connection_updated, connection_closed, process_started,
  process_exited, rule_added, rule_removed, paused_changed, network_changed, action_beq, block,
  Status, NetworkInfo, AppUsage, ConnectionInfo,
}
use travelmode.Conntrack.{AddrText}
use travelmode.Rules.{RuleStore, is_blocked, blocks}
use travelmode.Rules
use travelmode.Rules.Invariant.{IsValid}
use travelmode.Rules.Told.{hear_rule}
use travelmode.State.{DaemonState}
use travelmode.State.Events.{fold_events}
use travelmode.Daemon.Tasks.{Step, System, run}
use travelmode.Daemon.Tasks.Knows.{Knows}
use travelmode.Daemon.Tasks.Informed.{run-Knows}
use travelmode.Daemon.Tasks.Replay.{IsReplayable}
use travelmode.Daemon.Tasks.Late.{run-IsReplayable, replayed-Knows}
use travelmode.Daemon.Tasks.Expiry.{run-next_id}
use travelmode.Client.{
  ClientState, AppEntry, rule_for, apply_event, upsert_conn, remove_conn, refresh_rule_flags,
}
use travelmode.Client.Snapshot.{add_conn, add_conns, apply_snapshot, settle}
use travelmode.Client.Session.{turns, session-AreFlagged}
use travelmode.Client.Flags.{AreFlagged, apply_event-AreFlagged}

remove_conn-rules : (key : Text) (s : ClientState) → (remove_conn key s).rules ≡ s.rules
unfolding remove_conn
remove_conn-rules key s = ground arith

apply_event-rules : (e : Event) (s : ClientState) → (apply_event e s).rules ≡ hear_rule e s.rules
unfolding apply_event hear_rule upsert_conn refresh_rule_flags
apply_event-rules (connection_opened conn) s = refl
apply_event-rules (connection_updated conn) s = refl
apply_event-rules (connection_closed key) s = remove_conn-rules key s
apply_event-rules (rule_added rule) s = refl
apply_event-rules (rule_removed id) s = refl
apply_event-rules (paused_changed paused) s = refl
apply_event-rules (network_changed network) s = refl
apply_event-rules (process_started p) s = refl
apply_event-rules (process_exited pid) s = refl

-- The client's state after it has handled every event so far.
abbrev pub following : ClientState → DaemonState → ClientState
following client s = fold_events apply_event s.events client

following-rules :
    (es : List Event) (client : ClientState)
    → ClientState.rules (fold_events apply_event es client) ≡ fold_events hear_rule es client.rules
unfolding fold_events
following-rules [] client = refl
following-rules (e ∷ es) client =
    following-rules es (apply_event e client)
    ∙ ap (fold_events hear_rule es) (apply_event-rules e client)

following-AreFlagged :
    (es : List Event) (client : ClientState)
    → AreFlagged client.rules client.apps
    → AreFlagged
        (ClientState.rules (fold_events apply_event es client))
        (ClientState.apps (fold_events apply_event es client))
unfolding fold_events
following-AreFlagged [] client h = h
following-AreFlagged (e ∷ es) client h =
    following-AreFlagged es (apply_event e client) (apply_event-AreFlagged e client h)

pub find-any : (p : Rule → Bool) (rs : List Rule) → is_some (find p rs) ≡ any p rs
find-any p [] = refl
find-any p (r ∷ rs) = ground (arith, find-any p rs)

add_conns-rules :
    (conns : List ConnectionInfo) (s : ClientState) → (add_conns conns s).rules ≡ s.rules
unfolding add_conns
add_conns-rules [] s = refl
add_conns-rules (conn ∷ conns) s = add_conns-rules conns (add_conn conn s)

apply_snapshot-rules :
    (status : Status) (network : NetworkInfo) (top : List AppUsage) (conns : List ConnectionInfo)
    (rs : List Rule) (s : ClientState)
    → (apply_snapshot status network top conns rs s).rules ≡ rs
unfolding apply_snapshot settle refresh_rule_flags
apply_snapshot-rules status network top conns rs s = add_conns-rules conns _

-- Who knows every rule flags every application that is blocked.
known-blocked :
    (client : ClientState) (s : DaemonState) (k : Text) (app : AppEntry) (exe : FilePath) (t : ℕ)
    → Knows client.rules s
    → AreFlagged client.rules client.apps
    → Map.get k (following client s).apps ≡ some app
    → app.exe ≡ some exe
    → is_blocked s.rules exe t ≡ true
    → app.blocked ≡ true
unfolding is_blocked
known-blocked client s k app exe t h f g e b =
    let points : Rule → Bool = λ r. action_beq r.action block && path_beq r.exe_path exe in
    let known : any points (fold_events hear_rule s.events client.rules) ≡ true =
      h.known points (any-of_imp (blocks exe t) points s.rules.rules (λ r q. ground arith) b) in
    let flagged : app.blocked ≡ is_some (rule_for (following client s).rules app.exe) =
      (following-AreFlagged s.events client f k app g).0 in
    ground (
      arith,
      flagged,
      known,
      find-any points (following client s).rules,
      following-rules s.events client,
      ap (rule_for (following client s).rules) e,
    )

-- A client subscribes while the rules are in order, takes its snapshot of the rules at any later
-- time, and then handles every event since it subscribed, late ones included. However the tasks of
-- the daemon interleave before and after the snapshot, short of exhausting the ids: an application
-- of the page whose executable the daemon blocks is shown as blocked.
pub run-shown_blocked :
    (a : AddrText) (before steps : List Step) (y : System) (status : Status) (network : NetworkInfo)
    (top : List AppUsage) (conns : List ConnectionInfo) (client : ClientState) (k : Text)
    (app : AppEntry) (exe : FilePath) (t : ℕ)
    → y.state.events ≡ []
    → IsValid y.state.rules
    → y.state.rules.next_id + length before + length steps < u64_mod
    → Map.get k (
        ClientState.apps (
          following
            (apply_snapshot status network top conns
              (Rules.list (run a before y).state.rules)
              client)
            (run a steps (run a before y)).state))
      ≡ some app
    → app.exe ≡ some exe
    → is_blocked (run a steps (run a before y)).state.rules exe t ≡ true
    → app.blocked ≡ true
unfolding Rules.list fold_events turns
run-shown_blocked a before steps y status network top conns client k app exe t none_yet v n =
    let then : System = run a before y in
    let start : ClientState =
      apply_snapshot status network top conns (Rules.list then.state.rules) client in
    let same : start.rules ≡ then.state.rules.rules =
      apply_snapshot-rules status network top conns (Rules.list then.state.rules) client in
    let replayable : IsReplayable then.state =
      run-IsReplayable a before y (omega (arith, n)) (record { valid = v; log = rw none_yet tt }) in
    known-blocked start (run a steps then).state k app exe t
      (rw same (
        run-Knows then.state.rules.rules a steps then (omega (arith, n, run-next_id a before y))
          (replayed-Knows then.state replayable)))
      (λ j entry g.
        session-AreFlagged status network top conns (Rules.list then.state.rules) client [] j entry
          g)
