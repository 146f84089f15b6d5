-- ===== src/Daemon/Tasks/Knows.antt =====
-- A client that follows the events knows the rules of the daemon under every interleaving of its
-- tasks: crates/daemon/src/main.rs with crates/daemon/src/rules.rs.
use mathlib.Core.Path.{subst}
use travelmode.Base.{
  ℕ, ◌+◌, ◌<◌, ◌≡◌, refl, Bool, false, not, List, [], ◌∷◌, Option, none, some, any, All, u64_mod,
}
use travelmode.Types.{Rule, RuleInput, rule_added, rule_removed}
use travelmode.Rules
use travelmode.Rules.{RuleStore, is_expired, expiry, new_rule, put_rule, remove_id, same_target}
use travelmode.Rules.Invariant.{IsValid, add-IsValid, remove-IsValid, reap_expired-IsValid}
use travelmode.Rules.Told.{
  hear_rule, AreKnown, has_id, ids_of-gone, forget-AreKnown, retain-AreKnown, added-AreKnown,
  removed-AreKnown,
}
use travelmode.State.{DaemonState, publish}
use travelmode.State.Events.{fold_events-append}
use travelmode.Daemon.{Setting, handle_add_rule, handle_remove_rule, announce_reaped, reap_once}
use travelmode.Daemon.Tasks.{after_request}
use travelmode.Daemon.Tasks.Stores.{stored_rules, removed_rules, reaped_rules}
use travelmode.Daemon.Tasks.Kept.{Listener, told}

abbrev pub rules : List Rule → Listener (List Rule) RuleStore
rules start = record { heard = hear_rule; start = start; view = λ store procs conns handle. store }

-- Who followed every event from a first list knows every rule; the rules are in order.
pub record Knows (start : List Rule) (s : DaemonState) : Type 0 where
  pub valid : IsValid s.rules
  pub known : AreKnown s.rules.rules (told (rules start) s)

module _ (start : List Rule) (e : Setting) where
  pub add_rule-Knows :
      (s : DaemonState) (input : RuleInput)
      → s.rules.next_id + 1 < u64_mod
      → Knows start s
      → Knows start (after_request s (handle_add_rule e s input))
  unfolding handle_add_rule
  add_rule-Knows s input n h = added (Rules.add e.platform e.saving s.rules input e.now) refl
    where
      added :
          (o : Option (Rule × RuleStore))
          → Rules.add e.platform e.saving s.rules input e.now ≡ o
          → Knows start (after_request s (handle_add_rule e s input))
      added none q = rw (q, handle_add_rule) h
      added (some (stored, store)) q =
          let (own, same, _) = stored_rules e s.rules input stored store q in
          rw (q, handle_add_rule)
            (record {
              valid =
                  subst (λ o. IsValid (Rules.store_after s.rules o)) q
                    (add-IsValid e.platform e.saving s.rules input e.now n h.valid);
              known =
                  rw (same, fold_events-append hear_rule s.events (rule_added stored) start)
                    (added-AreKnown stored (λ r. not (same_target stored r)) s.rules.rules
                      (told (rules start) s) (rw own h.valid.bounded) h.known);
            })

  pub remove_rule-Knows :
      (s : DaemonState) (id : ℕ) → Knows start s → Knows start (handle_remove_rule e s id).1
  unfolding handle_remove_rule
  remove_rule-Knows s id h = removed (Rules.remove e.platform e.saving s.rules id) refl
    where
      removed :
          (o : Option (Rule × RuleStore))
          → Rules.remove e.platform e.saving s.rules id ≡ o
          → Knows start (handle_remove_rule e s id).1
      removed none q = rw (q, handle_remove_rule) h
      removed (some (rule, store)) q =
          rw (q, handle_remove_rule)
            (record {
              valid =
                  subst (λ o. IsValid (Rules.store_after s.rules o)) q
                    (remove-IsValid e.platform e.saving s.rules id h.valid);
              known = rw (fold_events-append hear_rule s.events (rule_removed id) start) (
                  removed-AreKnown id s.rules.rules (told (rules start) s) rule store.rules
                    (removed_rules e s.rules id rule store q) h.valid.ids h.known);
            })

  announce_reaped-Knows :
      (ids : List ℕ) (s : DaemonState)
      → All (λ id. any (has_id id) s.rules.rules ≡ false) ids
      → Knows start s
      → Knows start (announce_reaped ids s)
  unfolding announce_reaped hear_rule
  announce_reaped-Knows [] s g h = h
  announce_reaped-Knows (id ∷ ids) s g h =
      announce_reaped-Knows ids (publish (rule_removed id) s) g.1 (record {
        valid = h.valid;
        known =
            rw (fold_events-append hear_rule s.events (rule_removed id) start)
              (forget-AreKnown id s.rules.rules (told (rules start) s) g.0 h.known);
      })

  pub reap_once-Knows : (s : DaemonState) → Knows start s → Knows start (reap_once e s)
  unfolding reap_once
  reap_once-Knows s h =
      let reaped : List ℕ × RuleStore = Rules.reap_expired e.platform e.saving s.rules e.now in
      let dead : Rule → Bool = λ r. is_expired r e.now in
      announce_reaped-Knows reaped.0 (record s { rules = reaped.1 })
        (unfold Rules.reap_expired in
          rw (reaped_rules e s.rules) (ids_of-gone dead s.rules.rules h.valid.ids))
        (record {
          valid = reap_expired-IsValid e.platform e.saving s.rules e.now h.valid;
          known =
              rw (reaped_rules e s.rules)
                (λ p q. h.known p (retain-AreKnown (λ r. not (dead r)) s.rules.rules p q));
        })
