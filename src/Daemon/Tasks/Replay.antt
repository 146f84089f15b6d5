-- ===== src/Daemon/Tasks/Replay.antt =====
-- The rule events of crates/daemon/src/main.rs since a client has subscribed, and the list of rules at
-- a later time: handling the events after that list takes nothing away from it.
use mathlib.Core.Path.{subst}
use travelmode.Base.{
  ℕ, ◌+◌, ◌<◌, ◌≤◌, ◌≡◌, refl, false, not, List, [], ◌∷◌, ◌++◌, Option, none, some, arith, leb,
  retain, any, any-retain-false, All, All-append, All-of_imp, u64_mod, add_u64,
}
use travelmode.Types.{
  Rule, RuleInput, Event, connection_opened, connection_updated, connection_closed, process_started,
  process_exited, rule_added, rule_removed, paused_changed, network_changed,
}
use travelmode.Rules
use travelmode.Rules.{RuleStore, is_expired, same_target, remove_id, store_after}
use travelmode.Rules.Invariant.{IsValid, same_id, any_from, add-IsValid, remove-IsValid}
use travelmode.Rules.Removal.{any-remove_id, any-rest, remove_id-found}
use travelmode.Rules.Told.{AreKnown, has_id, retain-AreKnown}
use travelmode.Rules.Replay.{Spares, IsOld, part-Spares, append-Spares, added-Spares, IsOld-le}
use travelmode.State.{DaemonState}
use travelmode.State.Events.{fold_events-append}
use travelmode.Daemon.{Setting, handle_add_rule, handle_remove_rule}
use travelmode.Daemon.Tasks.{after_request}
use travelmode.Daemon.Tasks.Kept.{Listener, told}
use travelmode.Daemon.Tasks.Stores.{stored_rules, removed_rules, removed_next_id}

-- The events on rules among all.
unfoldable pub log_rule : Event → List Event → List Event
log_rule (rule_added r) es = es ++ rule_added r ∷ []
log_rule (rule_removed id) es = es ++ rule_removed id ∷ []
log_rule (connection_opened _) es = es
log_rule (connection_updated _) es = es
log_rule (connection_closed _) es = es
log_rule (paused_changed _) es = es
log_rule (network_changed _) es = es
log_rule (process_started _) es = es
log_rule (process_exited _) es = es

abbrev pub logged : Listener (List Event) RuleStore
logged = record { heard = log_rule; start = []; view = λ store procs conns handle. store }

abbrev pub Fits : List Rule → ℕ → Event → Type 0
Fits rs n e = Spares rs e × IsOld n e

-- The rules are in order, and the events so far take none of them away.
pub record IsReplayable (s : DaemonState) : Type 0 where
  pub valid : IsValid s.rules
  pub log : All (Fits s.rules.rules s.rules.next_id) (told logged s)

-- A change that keeps a part of the rules, and the ids.
pub part-Fits :
    (rs part : List Rule) (m n : ℕ) (es : List Event)
    → AreKnown part rs
    → m ≤ n
    → All (Fits rs m) es
    → All (Fits part n) es
part-Fits rs part m n es k h =
    All-of_imp (Fits rs m) (Fits part n) es
      (λ e f. (part-Spares e rs part k f.0, IsOld-le e m n h f.1))

-- A new rule with the next id.
append-Fits :
    (rs : List Rule) (new : Rule) (n : ℕ) (es : List Event)
    → new.id < n
    → All (Fits rs new.id) es
    → All (Fits (rs ++ new ∷ []) n) es
append-Fits rs new n es h =
    All-of_imp (Fits rs new.id) (Fits (rs ++ new ∷ []) n) es
      (λ e f. (append-Spares e rs new f.1 f.0, IsOld-le e new.id n (omega arith) f.1))

module _ (e : Setting) where
  pub add_rule-IsReplayable :
      (s : DaemonState) (input : RuleInput)
      → s.rules.next_id + 1 < u64_mod
      → IsReplayable s
      → IsReplayable (after_request s (handle_add_rule e s input))
  unfolding handle_add_rule log_rule
  add_rule-IsReplayable s input n h = added (Rules.add e.platform e.saving s.rules input e.now) refl
    where
      added :
          (o : Option (Rule × RuleStore))
          → Rules.add e.platform e.saving s.rules input e.now ≡ o
          → IsReplayable (after_request s (handle_add_rule e s input))
      added none q = rw (q, handle_add_rule) h
      added (some (stored, store)) q =
          let (own, same, next) = stored_rules e s.rules input stored store q in
          let kept : List Rule = retain (λ r. not (same_target stored r)) s.rules.rules in
          let part : AreKnown kept s.rules.rules =
            retain-AreKnown (λ r. not (same_target stored r)) s.rules.rules in
          let log : List Event = told logged s in
          let old : All (Fits kept stored.id) log = rw own (
            part-Fits s.rules.rules kept s.rules.next_id s.rules.next_id log part (omega arith)
              h.log) in
          let fresh : any_from stored.id kept ≡ false =
            any-retain-false (λ r. leb stored.id r.id) (λ r. not (same_target stored r))
              s.rules.rules (rw own h.valid.bounded) in
          let n' : ℕ = add_u64 s.rules.next_id 1 in
          let less : stored.id < n' = ground (arith, own) in
          rw (q, handle_add_rule)
            (record {
              valid =
                  subst (λ o. IsValid (store_after s.rules o)) q
                    (add-IsValid e.platform e.saving s.rules input e.now n h.valid);
              log =
                  rw (same, next, fold_events-append log_rule s.events (rule_added stored) [])
                    (All-append (Fits (kept ++ stored ∷ []) n') log (rule_added stored ∷ [])
                      (append-Fits kept stored n' log less old)
                      ((added-Spares kept stored fresh, less), tt));
            })

  pub remove_rule-IsReplayable :
      (s : DaemonState) (id : ℕ) → IsReplayable s → IsReplayable (handle_remove_rule e s id).1
  unfolding handle_remove_rule log_rule
  remove_rule-IsReplayable s id h = removed (Rules.remove e.platform e.saving s.rules id) refl
    where
      removed :
          (o : Option (Rule × RuleStore))
          → Rules.remove e.platform e.saving s.rules id ≡ o
          → IsReplayable (handle_remove_rule e s id).1
      removed none q = rw (q, handle_remove_rule) h
      removed (some (rule, store)) q =
          let rest : remove_id id s.rules.rules ≡ some (rule, store.rules) =
            removed_rules e s.rules id rule store q in
          let own : rule.id ≡ id = remove_id-found id s.rules.rules rule store.rules rest in
          let part : AreKnown store.rules s.rules.rules =
            λ p t. ground (arith, any-remove_id id p s.rules.rules rule store.rules rest) in
          let none_left : any (has_id id) store.rules ≡ false =
            any-rest same_id id s.rules.rules rule store.rules (has_id id) (λ x t. ground arith)
              (λ x t. ground arith) rest h.valid.ids in
          let less : id < s.rules.next_id = ground (
            arith,
            own,
            h.valid.bounded,
            any-remove_id id (λ r. leb s.rules.next_id r.id) s.rules.rules rule store.rules rest,
          ) in
          let log : List Event = told logged s in
          rw (q, handle_remove_rule)
            (record {
              valid =
                  subst (λ o. IsValid (store_after s.rules o)) q
                    (remove-IsValid e.platform e.saving s.rules id h.valid);
              log =
                  rw
                    (
                      removed_next_id e s.rules id rule store q,
                      fold_events-append log_rule s.events (rule_removed id) [],
                    )
                    (All-append (Fits store.rules s.rules.next_id) log (rule_removed id ∷ [])
                      (part-Fits s.rules.rules store.rules s.rules.next_id s.rules.next_id log part
                        (omega arith) h.log)
                      ((none_left, less), tt));
            })
