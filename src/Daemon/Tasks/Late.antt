-- ===== src/Daemon/Tasks/Late.antt =====
-- A client subscribes first and fetches its snapshot later, as `session` of crates/gui/src/client.rs
-- does: what it knows of the rules of crates/daemon/src/main.rs all the same.
use travelmode.Base.{
  ℕ, ◌+◌, ◌<◌, ◌≡◌, ◌∙◌, refl, ap, sym, Bool, false, not, List, [], ◌∷◌, arith, length, retain, any,
  All, All-append, u64_mod, Bool-cases, inl, inr,
}
use travelmode.Types.{
  Rule, Event, connection_opened, connection_updated, connection_closed, process_started,
  process_exited, rule_added, rule_removed, paused_changed, network_changed,
}
use travelmode.Conntrack.{AddrText}
use travelmode.Conntrack.Poll.{poll_once}
use travelmode.Procs.Scan.{scan_once}
use travelmode.Rules
use travelmode.Rules.{RuleStore, is_expired}
use travelmode.Rules.Invariant.{any_from, reap_expired-IsValid}
use travelmode.Rules.Told.{hear_rule, AreKnown, has_id, ids_of, ids_of-gone, retain-AreKnown}
use travelmode.Rules.Replay.{hear_rule-AreKnown}
use travelmode.State.{DaemonState, publish}
use travelmode.State.Events.{fold_events, fold_events-append}
use travelmode.Firewall.Verdict.{decide}
use travelmode.Ipc.{
  Request, ping, get_status, get_network, get_processes, get_connections, get_top, list_rules,
  add_rule, remove_rule, set_paused, subscribe,
}
use travelmode.Daemon.{
  Setting, dispatch, handle_set_paused, announce_reaped, reap_once, refresh_network,
}
use travelmode.Daemon.Tasks.{
  after_request, after_packet, Step, request, packet, poll, scan, reap, network_read, System,
  perform, run,
}
use travelmode.Daemon.Tasks.Kept.{Kept, told, publish-Kept}
use travelmode.Daemon.Tasks.Tables.{IgnoresFlows, IgnoresProcesses, poll_once-Kept, scan_once-Kept}
use travelmode.Daemon.Tasks.Packets.{decide-Kept}
use travelmode.Daemon.Tasks.Stores.{reaped_rules, reaped_next_id}
use travelmode.Daemon.Tasks.Informed.{perform-next_id}
use travelmode.Daemon.Tasks.Knows.{Knows}
use travelmode.Daemon.Tasks.Replay.{
  log_rule, logged, Fits, part-Fits, IsReplayable, add_rule-IsReplayable, remove_rule-IsReplayable,
}

ids_of-old :
    (n : ℕ) (dead : Rule → Bool) (rs : List Rule)
    → any_from n rs ≡ false
    → All (λ id. id < n) (ids_of dead rs)
ids_of-old n dead [] h = tt
ids_of-old n dead (r ∷ rs) h = elim (Bool-cases (dead r)) [
  | inl e ↦ rw e (ground arith, ids_of-old n dead rs (ground arith))
  | inr e ↦ rw e (ids_of-old n dead rs (ground arith))
]

announce_reaped-IsReplayable :
    (ids : List ℕ) (s : DaemonState)
    → All (λ id. any (has_id id) s.rules.rules ≡ false) ids
    → All (λ id. id < s.rules.next_id) ids
    → IsReplayable s
    → IsReplayable (announce_reaped ids s)
unfolding announce_reaped log_rule
announce_reaped-IsReplayable [] s g o h = h
announce_reaped-IsReplayable (id ∷ ids) s g o h =
    announce_reaped-IsReplayable ids (publish (rule_removed id) s) g.1 o.1 (record {
      valid = h.valid;
      log = rw (fold_events-append log_rule s.events (rule_removed id) []) (
          All-append (Fits s.rules.rules s.rules.next_id) (told logged s) (rule_removed id ∷ [])
            h.log ((g.0, o.0), tt));
    })

reap_once-IsReplayable :
    (e : Setting) (s : DaemonState) → IsReplayable s → IsReplayable (reap_once e s)
unfolding reap_once
reap_once-IsReplayable e s h =
    let reaped : List ℕ × RuleStore = Rules.reap_expired e.platform e.saving s.rules e.now in
    let dead : Rule → Bool = λ r. is_expired r e.now in
    let kept : List Rule = retain (λ r. not (dead r)) s.rules.rules in
    announce_reaped-IsReplayable reaped.0 (record s { rules = reaped.1 })
      (unfold Rules.reap_expired in
        rw (reaped_rules e s.rules) (ids_of-gone dead s.rules.rules h.valid.ids))
      (unfold Rules.reap_expired in
        rw (reaped_next_id e s.rules)
          (ids_of-old s.rules.next_id dead s.rules.rules h.valid.bounded))
      (record {
        valid = reap_expired-IsValid e.platform e.saving s.rules e.now h.valid;
        log =
            rw (reaped_rules e s.rules, reaped_next_id e s.rules)
              (part-Fits s.rules.rules kept s.rules.next_id s.rules.next_id (told logged s)
                (retain-AreKnown (λ r. not (dead r)) s.rules.rules) (omega arith) h.log);
      })

Kept-IsReplayable : (s s' : DaemonState) → Kept logged s s' → IsReplayable s → IsReplayable s'
Kept-IsReplayable s s' k h = record {
  valid = rw k.same_view h.valid;
  log = rw (k.same_told, k.same_view) h.log;
}

dispatch-IsReplayable :
    (e : Setting) (s : DaemonState) (r : Request)
    → s.rules.next_id + 1 < u64_mod
    → IsReplayable s
    → IsReplayable (after_request s (dispatch e s r))
unfolding dispatch handle_set_paused
dispatch-IsReplayable e s ping n h = h
dispatch-IsReplayable e s get_status n h = h
dispatch-IsReplayable e s get_network n h = h
dispatch-IsReplayable e s get_processes n h = h
dispatch-IsReplayable e s get_connections n h = h
dispatch-IsReplayable e s get_top n h = h
dispatch-IsReplayable e s list_rules n h = h
dispatch-IsReplayable e s (add_rule rule) n h = add_rule-IsReplayable e s rule n h
dispatch-IsReplayable e s (remove_rule id) n h = remove_rule-IsReplayable e s id h
dispatch-IsReplayable e s (set_paused paused) n h =
    Kept-IsReplayable s (publish (paused_changed paused) (record s { paused = paused }))
      (publish-Kept logged (paused_changed paused) s (record s { paused = paused })
        (λ m. unfold log_rule in refl) refl refl)
      h
dispatch-IsReplayable e s subscribe n h = h

logged-IgnoresFlows : IgnoresFlows logged
logged-IgnoresFlows =
    unfold log_rule in
    record {
      opened = λ c m. refl;
      updated = λ c m. refl;
      closed = λ k m. refl;
      unseen = λ r p c d h. refl;
    }

logged-IgnoresProcesses : IgnoresProcesses logged
logged-IgnoresProcesses =
    unfold log_rule in
    record { started = λ p m. refl; exited = λ pid m. refl; unseen = λ r p q c h. refl }

perform-IsReplayable :
    (a : AddrText) (step : Step) (y : System)
    → y.state.rules.next_id + 1 < u64_mod
    → IsReplayable y.state
    → IsReplayable (perform a step y).state
unfolding perform refresh_network
perform-IsReplayable a (request e r) y n h = dispatch-IsReplayable e y.state r n h
perform-IsReplayable a (packet p) y n h =
    Kept-IsReplayable y.state (after_packet y.state (decide a y.state p))
      (decide-Kept logged a y.state p) h
perform-IsReplayable a (poll w now) y n h =
    Kept-IsReplayable y.state (poll_once a w now y.state)
      (poll_once-Kept logged logged-IgnoresFlows a w now y.state) h
perform-IsReplayable a (scan w) y n h =
    Kept-IsReplayable y.state (scan_once w y.users y.state).0
      (scan_once-Kept logged logged-IgnoresProcesses w y.users y.state) h
perform-IsReplayable a (reap e) y n h = reap_once-IsReplayable e y.state h
perform-IsReplayable a (network_read m) y n h = record { valid = h.valid; log = h.log }

pub run-IsReplayable :
    (a : AddrText) (steps : List Step) (y : System)
    → y.state.rules.next_id + length steps < u64_mod
    → IsReplayable y.state
    → IsReplayable (run a steps y).state
unfolding run
run-IsReplayable a [] y n h = h
run-IsReplayable a (step ∷ steps) y n h =
    run-IsReplayable a steps (perform a step y) (omega (arith, perform-next_id a step y))
      (perform-IsReplayable a step y (omega arith) h)

log_rule-replayed :
    (e : Event) (es : List Event) (known : List Rule)
    → fold_events hear_rule (log_rule e es) known ≡ hear_rule e (fold_events hear_rule es known)
unfolding log_rule hear_rule
log_rule-replayed (rule_added r) es known = fold_events-append hear_rule es (rule_added r) known
log_rule-replayed (rule_removed id) es known =
    fold_events-append hear_rule es (rule_removed id) known
log_rule-replayed (connection_opened _) es known = refl
log_rule-replayed (connection_updated _) es known = refl
log_rule-replayed (connection_closed _) es known = refl
log_rule-replayed (paused_changed _) es known = refl
log_rule-replayed (network_changed _) es known = refl
log_rule-replayed (process_started _) es known = refl
log_rule-replayed (process_exited _) es known = refl

-- Only the events on rules count.
logged-replayed :
    (es log : List Event) (known : List Rule)
    → fold_events hear_rule es (fold_events hear_rule log known)
      ≡ fold_events hear_rule (fold_events log_rule es log) known
unfolding fold_events
logged-replayed [] log known = refl
logged-replayed (e ∷ es) log known =
    ap (fold_events hear_rule es) (sym (log_rule-replayed e log known))
    ∙ logged-replayed es (log_rule e log) known

spared-AreKnown :
    (rs : List Rule) (n : ℕ) (es : List Event) (known : List Rule)
    → All (Fits rs n) es
    → AreKnown rs known
    → AreKnown rs (fold_events hear_rule es known)
unfolding fold_events
spared-AreKnown rs n [] known f h = h
spared-AreKnown rs n (e ∷ es) known f h =
    spared-AreKnown rs n es (hear_rule e known) f.1 (hear_rule-AreKnown e rs known f.0.0 h)

-- A client that handles the events so far after it has got the list of rules still knows them all.
pub replayed-Knows : (s : DaemonState) → IsReplayable s → Knows s.rules.rules s
unfolding fold_events
replayed-Knows s h = record {
  valid = h.valid;
  known = rw (logged-replayed s.events [] s.rules.rules) (
      spared-AreKnown s.rules.rules s.rules.next_id (told logged s) s.rules.rules h.log (λ p q. q));
}
