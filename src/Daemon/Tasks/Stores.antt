-- ===== src/Daemon/Tasks/Stores.antt =====
-- What the calls of crates/daemon/src/rules.rs leave in the store, whatever the saves do.
use travelmode.Base.{
  ℕ, ◌≡◌, refl, not, some, arith, nat_beq, length, retain, Option-cases, Bool-cases, inl, inr,
  add_u64,
}
use travelmode.Types.{Rule, RuleInput}
use travelmode.Rules
use travelmode.Rules.{RuleStore, is_expired, expiry, put_rule, remove_id}
use travelmode.Daemon.{Setting}

module _ (e : Setting) where
  pub stored_rules :
      (s : RuleStore) (input : RuleInput) (stored : Rule) (store : RuleStore)
      → Rules.add e.platform e.saving s input e.now ≡ some (stored, store)
      → (stored.id ≡ s.next_id)
        × (store.rules ≡ RuleStore.rules (put_rule stored s))
        × (store.next_id ≡ add_u64 s.next_id 1)
  unfolding Rules.add Rules.save_locked
  stored_rules s input stored store h =
      elim (Option-cases (expiry e.platform input.ttl_secs e.now)) [
        | inl n ↦ absurd (ground arith)
        | inr (x, n) ↦ (ground arith, ground arith, ground arith)
      ]

  pub removed_rules :
      (s : RuleStore) (id : ℕ) (rule : Rule) (store : RuleStore)
      → Rules.remove e.platform e.saving s id ≡ some (rule, store)
      → remove_id id s.rules ≡ some (rule, store.rules)
  unfolding Rules.remove Rules.save_locked
  removed_rules s id rule store h = elim (Option-cases (remove_id id s.rules)) [
    | inl n ↦ absurd (ground arith)
    | inr ((r, rest), n) ↦ ground arith
  ]

  -- The rules that reaping keeps, whether it saves them or not.
  pub reaped_rules :
      (s : RuleStore)
      → RuleStore.rules (Rules.reap_expired e.platform e.saving s e.now).1
        ≡ retain (λ r. not (is_expired r e.now)) s.rules
  unfolding Rules.reap_expired Rules.save_locked
  reaped_rules s =
      elim (Bool-cases
        (nat_beq (length (retain (λ r. not (is_expired r e.now)) s.rules)) (length s.rules))) [
          | inl q ↦ rw q refl
          | inr q ↦ rw q refl
        ]

  pub removed_next_id :
      (s : RuleStore) (id : ℕ) (rule : Rule) (store : RuleStore)
      → Rules.remove e.platform e.saving s id ≡ some (rule, store)
      → store.next_id ≡ s.next_id
  unfolding Rules.remove Rules.save_locked
  removed_next_id s id rule store h = elim (Option-cases (remove_id id s.rules)) [
    | inl n ↦ absurd (ground arith)
    | inr ((r, rest), n) ↦ ground arith
  ]

  pub reaped_next_id :
      (s : RuleStore)
      → RuleStore.next_id (Rules.reap_expired e.platform e.saving s e.now).1 ≡ s.next_id
  unfolding Rules.reap_expired Rules.save_locked
  reaped_next_id s =
      elim (Bool-cases
        (nat_beq (length (retain (λ r. not (is_expired r e.now)) s.rules)) (length s.rules))) [
          | inl q ↦ rw q refl
          | inr q ↦ rw q refl
        ]
