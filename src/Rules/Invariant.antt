-- ===== src/Rules/Invariant.antt =====
-- The invariant of the rule store of crates/daemon/src/rules.rs, under its methods and over whole
-- histories of calls.
use travelmode.Base.{
  ℕ, ◌+◌, ◌<◌, ◌≤◌, ◌≡◌, refl, Bool, true, false, not, List, [], ◌∷◌, arith, nat_beq, leb, length,
  retain, any, All, Unique, Unique-retain, Unique-snoc, All-retain_self, All-of_imp,
  any-retain-false, any-append, u64_mod, Bool-cases, Option-cases, inl, inr, path_beq_sym,
}
use travelmode.Types.{Rule, RuleInput}
use travelmode.Rules.{
  Platform, SaveRun, RuleStore, Call, add_call, remove_call, reap_call, store_after, is_expired,
  same_target, new_rule, put_rule, save_locked, expiry, add, remove, remove_id, reap_expired,
}
use travelmode.Rules.Removal.{any-remove_id, Unique-remove_id}

abbrev pub same_id : Rule → Rule → Bool
same_id r q = nat_beq q.id r.id

-- Some rule has an id that is not below `n`.
abbrev pub any_from : ℕ → List Rule → Bool
any_from n rs = any (λ r. leb n r.id) rs

-- Every id is below the next one, ids are distinct, and no two rules have one path and one action.
pub record IsValid (s : RuleStore) : Type 0 where
  pub bounded : any_from s.next_id s.rules ≡ false
  pub ids : Unique same_id s.rules
  pub targets : Unique same_target s.rules

-- One call at a time `now`, with the outcome of its save.
unfoldable pub step : Platform → RuleStore → ℕ × SaveRun × Call → RuleStore
step p s (now, run, add_call input) = store_after s (add p run s input now)
step p s (now, run, remove_call id) = store_after s (remove p run s id)
step p s (now, run, reap_call) = (reap_expired p run s now).1

pub run_calls : Platform → RuleStore → List (ℕ × SaveRun × Call) → RuleStore
unfolding step
run_calls p s [] = s
run_calls p s (c ∷ cs) = run_calls p (step p s c) cs

any_from-le : (n m : ℕ) (rs : List Rule) → n < m → any_from n rs ≡ false → any_from m rs ≡ false
any_from-le n m [] h e = refl
any_from-le n m (r ∷ rs) h e = ground (arith, any_from-le n m rs h)

fresh-All :
    (rule : Rule) (rs : List Rule)
    → any_from rule.id rs ≡ false
    → All (λ r. same_id r rule ≡ false) rs
fresh-All rule [] e = tt
fresh-All rule (r ∷ rs) e = (ground arith, fresh-All rule rs (ground arith))

kept_unlike : (rule r : Rule) → not (same_target rule r) ≡ true → same_target r rule ≡ false
kept_unlike rule r h = ground (arith, path_beq_sym rule.exe_path r.exe_path)

put_rule-IsValid :
    (rule : Rule) (s : RuleStore)
    → rule.id ≡ s.next_id
    → s.next_id + 1 < u64_mod
    → IsValid s
    → IsValid (put_rule rule s)
put_rule-IsValid rule s e h v = record {
  bounded = ground (
    arith,
    any-append (λ r. leb (s.next_id + 1) r.id) kept (rule ∷ []),
    any_from-le s.next_id (s.next_id + 1) kept,
    any-retain-false (λ r. leb s.next_id r.id) keep s.rules,
  );
  ids =
      Unique-snoc same_id kept rule (Unique-retain same_id keep s.rules v.ids)
        (fresh-All rule kept (rw e (any-retain-false _ keep s.rules v.bounded)));
  targets =
      Unique-snoc same_target kept rule (Unique-retain same_target keep s.rules v.targets)
        (All-of_imp _ _ kept (kept_unlike rule) (All-retain_self keep s.rules));
}
  where
    keep : Rule → Bool
    keep r = not (same_target rule r)

    kept : List Rule
    kept = retain keep s.rules

-- A saved store has the rules and the ids of the store.
save_locked-IsValid :
    (p : Platform) (run : SaveRun) (s : RuleStore) → IsValid s → IsValid (save_locked p run s)
unfolding save_locked
save_locked-IsValid p run s v = record { bounded = v.bounded; ids = v.ids; targets = v.targets }

pub add-IsValid :
    (p : Platform) (run : SaveRun) (s : RuleStore) (input : RuleInput) (now : ℕ)
    → s.next_id + 1 < u64_mod
    → IsValid s
    → IsValid (store_after s (add p run s input now))
unfolding add
add-IsValid p run s input now h v = elim (Option-cases (expiry p input.ttl_secs now)) [
  | inl e ↦ rw (e, add) v
  | inr (x, e) ↦
      rw (e, add)
        (save_locked-IsValid p run _ (put_rule-IsValid (new_rule input now x s.next_id) s refl h v))
]

pub remove-IsValid :
    (p : Platform) (run : SaveRun) (s : RuleStore) (id : ℕ)
    → IsValid s
    → IsValid (store_after s (remove p run s id))
unfolding remove
remove-IsValid p run s id v = elim (Option-cases (remove_id id s.rules)) [
  | inl e ↦ rw (e, remove) v
  | inr ((r, rest), e) ↦
      rw (e, remove)
        (save_locked-IsValid p run (record s { rules = rest })
          (record {
            bounded = ground (arith, any-remove_id id (λ q. leb s.next_id q.id) s.rules r rest e);
            ids = Unique-remove_id same_id id s.rules r rest e v.ids;
            targets = Unique-remove_id same_target id s.rules r rest e v.targets;
          }))
]

retain-IsValid :
    (keep : Rule → Bool) (s : RuleStore)
    → IsValid s
    → IsValid (record s { rules = retain keep s.rules })
retain-IsValid keep s v = record {
  bounded = any-retain-false _ keep s.rules v.bounded;
  ids = Unique-retain same_id keep s.rules v.ids;
  targets = Unique-retain same_target keep s.rules v.targets;
}

pub reap_expired-IsValid :
    (p : Platform) (run : SaveRun) (s : RuleStore) (now : ℕ)
    → IsValid s
    → IsValid (reap_expired p run s now).1
unfolding reap_expired
reap_expired-IsValid p run s now v = elim (Bool-cases (nat_beq (length kept) (length s.rules))) [
  | inl e ↦ rw e (retain-IsValid keep s v)
  | inr e ↦ rw e (save_locked-IsValid p run _ (retain-IsValid keep s v))
]
  where
    keep : Rule → Bool
    keep r = not (is_expired r now)

    kept : List Rule
    kept = retain keep s.rules

step-IsValid :
    (p : Platform) (s : RuleStore) (c : ℕ × SaveRun × Call)
    → s.next_id + 1 < u64_mod
    → IsValid s
    → IsValid (step p s c)
unfolding step
step-IsValid p s (now, run, add_call input) h v = add-IsValid p run s input now h v
step-IsValid p s (now, run, remove_call id) h v = remove-IsValid p run s id v
step-IsValid p s (now, run, reap_call) h v = reap_expired-IsValid p run s now v

pub step-next_id :
    (p : Platform) (s : RuleStore) (c : ℕ × SaveRun × Call) → (step p s c).next_id ≤ s.next_id + 1
unfolding step add remove reap_expired save_locked
step-next_id p s (now, run, add_call input) = ground arith
step-next_id p s (now, run, remove_call id) = ground arith
step-next_id p s (now, run, reap_call) = ground arith

-- After any history of calls that does not exhaust the ids, whatever the outcomes of the saves,
-- every id is below the next one, ids are distinct, and no two rules have one path and one action.
pub run_calls-IsValid :
    (p : Platform) (s : RuleStore) (calls : List (ℕ × SaveRun × Call))
    → s.next_id + length calls < u64_mod
    → IsValid s
    → IsValid (run_calls p s calls)
unfolding run_calls
run_calls-IsValid p s [] h v = v
run_calls-IsValid p s (c ∷ cs) h v =
    run_calls-IsValid p (step p s c) cs (omega (arith, step-next_id p s c))
      (step-IsValid p s c (omega arith) v)
