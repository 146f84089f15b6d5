-- ===== src/Daemon/Tasks/Expiry.antt =====
-- The end of a temporary rule under every interleaving of the tasks of crates/daemon/src/main.rs:
-- `reaper_loop` with the store of crates/daemon/src/rules.rs, which hands out each id once.
use travelmode.Base.{
  ℕ, ◌+◌, ◌<◌, ◌≤◌, ◌≡◌, refl, Bool, true, false, not, ◌&&◌, List, [], ◌∷◌, ◌++◌, Option, none,
  some, arith, length, length-append, retain, any, any-append, any-retain, any-retain-false,
  u64_mod, any-eq-false_of_imp,
}
use travelmode.Types.{Rule, RuleInput}
use travelmode.Conntrack.{AddrText}
use travelmode.Conntrack.Poll.{poll_once}
use travelmode.Procs.Scan.{scan_once}
use travelmode.Rules
use travelmode.Rules.{RuleStore, is_expired, same_target, remove_id}
use travelmode.Rules.Removal.{any-remove_id}
use travelmode.Rules.Told.{has_id}
use travelmode.State.{DaemonState}
use travelmode.Firewall.Verdict.{decide}
use travelmode.Ipc.{
  Request, ping, get_status, get_network, get_processes, get_connections, get_top, list_rules,
  add_rule, remove_rule, set_paused, subscribe,
}
use travelmode.Daemon.{
  Setting, dispatch, handle_add_rule, handle_remove_rule, handle_set_paused, reap_once,
  refresh_network,
}
use travelmode.Daemon.Tasks.{
  after_request, after_packet, Step, request, packet, poll, scan, reap, network_read, System,
  perform, run,
}
use travelmode.Daemon.Tasks.Kept.{Kept}
use travelmode.Daemon.Tasks.Tables.{poll_once-Kept, scan_once-Kept}
use travelmode.Daemon.Tasks.Packets.{decide-Kept}
use travelmode.Daemon.Tasks.Knows.{rules}
use travelmode.Daemon.Tasks.Stores.{
  stored_rules, removed_rules, removed_next_id, reaped_rules, reaped_next_id,
}
use travelmode.Daemon.Tasks.Informed.{
  rules-IgnoresFlows, rules-IgnoresProcesses, announce_reaped-rules, perform-next_id,
  reap_once-next_id,
}

-- The id has been handed out, and no rule passes the test.
record IsGone (p : Rule → Bool) (id : ℕ) (s : RuleStore) : Type 0 where
  pub old : id < s.next_id
  pub gone : any p s.rules ≡ false

-- A test that only rules with that id pass.
module _ (p : Rule → Bool) (id : ℕ) (own : (r : Rule) → p r ≡ true → r.id ≡ id) where
  add_rule-IsGone :
      (e : Setting) (s : DaemonState) (input : RuleInput)
      → s.rules.next_id + 1 < u64_mod
      → IsGone p id s.rules
      → IsGone p id (after_request s (handle_add_rule e s input)).rules
  unfolding handle_add_rule
  add_rule-IsGone e s input n h = added (Rules.add e.platform e.saving s.rules input e.now) refl
    where
      added :
          (o : Option (Rule × RuleStore))
          → Rules.add e.platform e.saving s.rules input e.now ≡ o
          → IsGone p id (after_request s (handle_add_rule e s input)).rules
      added none q = rw (q, handle_add_rule) h
      added (some (stored, store)) q =
          let (mine, same, next) = stored_rules e s.rules input stored store q in
          let kept : List Rule = retain (λ r. not (same_target stored r)) s.rules.rules in
          rw (q, handle_add_rule)
            (record {
              old = ground (arith, h.old, next);
              gone = rw same (
                  ground (
                    arith,
                    own stored,
                    mine,
                    h.old,
                    any-append p kept (stored ∷ []),
                    any-retain-false p (λ r. not (same_target stored r)) s.rules.rules h.gone,
                  ));
            })

  remove_rule-IsGone :
      (e : Setting) (s : DaemonState) (rid : ℕ)
      → IsGone p id s.rules
      → IsGone p id (handle_remove_rule e s rid).1.rules
  unfolding handle_remove_rule
  remove_rule-IsGone e s rid h = removed (Rules.remove e.platform e.saving s.rules rid) refl
    where
      removed :
          (o : Option (Rule × RuleStore))
          → Rules.remove e.platform e.saving s.rules rid ≡ o
          → IsGone p id (handle_remove_rule e s rid).1.rules
      removed none q = rw (q, handle_remove_rule) h
      removed (some (rule, store)) q =
          rw (q, handle_remove_rule)
            (record {
              old = ground (arith, h.old, removed_next_id e s.rules rid rule store q);
              gone = ground (
                arith,
                h.gone,
                any-remove_id rid p s.rules.rules rule store.rules
                    (removed_rules e s.rules rid rule store q),
              );
            })

  reap_once-IsGone :
      (e : Setting) (s : DaemonState) → IsGone p id s.rules → IsGone p id (reap_once e s).rules
  unfolding reap_once
  reap_once-IsGone e s h =
      let reaped : List ℕ × RuleStore = Rules.reap_expired e.platform e.saving s.rules e.now in
      rw (announce_reaped-rules reaped.0 (record s { rules = reaped.1 })) (record {
        old = ground (arith, h.old, reaped_next_id e s.rules);
        gone =
            rw (reaped_rules e s.rules)
              (any-retain-false p (λ r. not (is_expired r e.now)) s.rules.rules h.gone);
      })

  same-IsGone :
      (s s' : DaemonState) → Kept (rules []) s s' → IsGone p id s.rules → IsGone p id s'.rules
  same-IsGone s s' k h = rw k.same_view h

  dispatch-IsGone :
      (e : Setting) (s : DaemonState) (r : Request)
      → s.rules.next_id + 1 < u64_mod
      → IsGone p id s.rules
      → IsGone p id (after_request s (dispatch e s r)).rules
  unfolding dispatch handle_set_paused
  dispatch-IsGone e s ping n h = h
  dispatch-IsGone e s get_status n h = h
  dispatch-IsGone e s get_network n h = h
  dispatch-IsGone e s get_processes n h = h
  dispatch-IsGone e s get_connections n h = h
  dispatch-IsGone e s get_top n h = h
  dispatch-IsGone e s list_rules n h = h
  dispatch-IsGone e s (add_rule rule) n h = add_rule-IsGone e s rule n h
  dispatch-IsGone e s (remove_rule rid) n h = remove_rule-IsGone e s rid h
  dispatch-IsGone e s (set_paused paused) n h = h
  dispatch-IsGone e s subscribe n h = h

  perform-IsGone :
      (a : AddrText) (step : Step) (y : System)
      → y.state.rules.next_id + 1 < u64_mod
      → IsGone p id y.state.rules
      → IsGone p id (perform a step y).state.rules
  unfolding perform refresh_network
  perform-IsGone a (request e r) y n h = dispatch-IsGone e y.state r n h
  perform-IsGone a (packet arrival) y n h =
      same-IsGone y.state (after_packet y.state (decide a y.state arrival))
        (decide-Kept (rules []) a y.state arrival) h
  perform-IsGone a (poll w now) y n h =
      same-IsGone y.state (poll_once a w now y.state)
        (poll_once-Kept (rules []) (rules-IgnoresFlows []) a w now y.state) h
  perform-IsGone a (scan w) y n h =
      same-IsGone y.state (scan_once w y.users y.state).0
        (scan_once-Kept (rules []) (rules-IgnoresProcesses []) w y.users y.state) h
  perform-IsGone a (reap e) y n h = reap_once-IsGone e y.state h
  perform-IsGone a (network_read m) y n h = h

  run-IsGone :
      (a : AddrText) (steps : List Step) (y : System)
      → y.state.rules.next_id + length steps < u64_mod
      → IsGone p id y.state.rules
      → IsGone p id (run a steps y).state.rules
  unfolding run
  run-IsGone a [] y n h = h
  run-IsGone a (step ∷ steps) y n h =
      run-IsGone a steps (perform a step y) (omega (arith, perform-next_id a step y))
        (perform-IsGone a step y (omega arith) h)

run-append :
    (a : AddrText) (xs ys : List Step) (y : System) → run a (xs ++ ys) y ≡ run a ys (run a xs y)
unfolding run
run-append a [] ys y = refl
run-append a (x ∷ xs) ys y = run-append a xs ys (perform a x y)

pub run-next_id :
    (a : AddrText) (steps : List Step) (y : System)
    → (run a steps y).state.rules.next_id ≤ y.state.rules.next_id + length steps
unfolding run
run-next_id a [] y = omega arith
run-next_id a (step ∷ steps) y =
    omega (arith, run-next_id a steps (perform a step y), perform-next_id a step y)

-- The rule has the id and has not expired at that time.
abbrev pub outlives : ℕ → ℕ → Rule → Bool
outlives id now r = has_id id r && not (is_expired r now)

-- The reaper takes away what has expired.
reap_once-gone :
    (e : Setting) (id : ℕ) (s : DaemonState)
    → any (outlives id e.now) s.rules.rules ≡ false
    → any (has_id id) (reap_once e s).rules.rules ≡ false
unfolding reap_once
reap_once-gone e id s h =
    let reaped : List ℕ × RuleStore = Rules.reap_expired e.platform e.saving s.rules e.now in
    rw
      (
        announce_reaped-rules reaped.0 (record s { rules = reaped.1 }),
        reaped_rules e s.rules,
        any-retain (has_id id) (λ r. not (is_expired r e.now)) s.rules.rules,
      )
      (any-eq-false_of_imp (λ r. not (is_expired r e.now) && has_id id r) (outlives id e.now)
        s.rules.rules (λ r q. ground arith) h)

-- An id that has been handed out, and whose rule, if there is one, has expired when the reaper
-- runs: however the other tasks are interleaved before and after, no rule has it from then on,
-- while ids are not exhausted.
pub run-expires :
    (a : AddrText) (before after : List Step) (e : Setting) (y : System) (id : ℕ)
    → id < y.state.rules.next_id
    → any (outlives id e.now) y.state.rules.rules ≡ false
    → y.state.rules.next_id + length (before ++ reap e ∷ after) < u64_mod
    → any (has_id id) (Rules.list (run a (before ++ reap e ∷ after) y).state.rules) ≡ false
unfolding Rules.list run perform
run-expires a before after e y id o h n =
    let size : length (before ++ reap e ∷ after) ≡ length before + (length after + 1) =
      omega (arith, length-append before (reap e ∷ after)) in
    let then : System = run a before y in
    let late : (r : Rule) → outlives id e.now r ≡ true → r.id ≡ id = λ r q. ground arith in
    let first : IsGone (outlives id e.now) id then.state.rules =
      run-IsGone (outlives id e.now) id late a before y (omega (arith, size))
        (record { old = o; gone = h }) in
    rw (run-append a before (reap e ∷ after) y) (
      IsGone.gone (
        run-IsGone (has_id id) id (λ r q. ground arith) a after (perform a (reap e) then)
          (omega (arith, size, run-next_id a before y, reap_once-next_id e then.state))
          (record {
            old = IsGone.old (reap_once-IsGone (outlives id e.now) id late e then.state first);
            gone = reap_once-gone e id then.state first.gone;
          })))
