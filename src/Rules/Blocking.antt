-- ===== src/Rules/Blocking.antt =====
-- What each method of the rule store of crates/daemon/src/rules.rs does to the verdict
-- `is_blocked`, for every path and time.
use travelmode.Base.{
  ℕ, ◌≤◌, ◌≡◌, Bool, true, false, not, ◌&&◌, List, [], ◌∷◌, ◌++◌, some, arith, retain, any, Unique,
  any-append, any-retain_all, any-retain_none, FilePath, Bool-cases, Option-cases, inl, inr,
  path_beq, path_beq_sym, path_beq_congr, if◌then◌else◌,
}
use travelmode.Types.{Rule, RuleInput, block, action_beq}
use travelmode.Rules.{
  Platform, SaveRun, RuleStore, is_expired, is_blocked, blocks, same_target, new_rule, save_locked,
  expiry, add, remove, remove_id, reap_expired,
}
use travelmode.Rules.Removal.{any-remove_id, any-rest}
use travelmode.Rules.Invariant.{IsValid}

-- A rule that decides about a path is for the same target as a Block rule for that path.
blocks-same_target :
    (rule r : Rule) (q : FilePath) (t : ℕ)
    → rule.action ≡ block
    → path_beq rule.exe_path q ≡ true
    → blocks q t r ≡ true
    → same_target rule r ≡ true
blocks-same_target rule r q t a e h = ground (
  arith,
  path_beq_sym r.exe_path rule.exe_path,
  path_beq_congr rule.exe_path q r.exe_path,
  path_beq_sym q r.exe_path,
)

-- A rule that is replaced decides about no other path.
blocks-not_replaced :
    (rule r : Rule) (q : FilePath) (t : ℕ)
    → (action_beq rule.action block && path_beq rule.exe_path q) ≡ false
    → blocks q t r ≡ true
    → not (same_target rule r) ≡ true
blocks-not_replaced rule r q t a h = ground (arith, path_beq_congr r.exe_path rule.exe_path q)

any-put_rule :
    (rule : Rule) (rs : List Rule) (q : FilePath) (t : ℕ)
    → any (blocks q t) (retain (λ r. not (same_target rule r)) rs ++ rule ∷ []) ≡ (
        if action_beq rule.action block && path_beq rule.exe_path q
        then not (is_expired rule t)
        else any (blocks q t) rs)
any-put_rule rule rs q t =
    elim (Bool-cases (action_beq rule.action block && path_beq rule.exe_path q)) [
      | inl e ↦ ground (
        arith,
        any-append (blocks q t) (retain keep rs) (rule ∷ []),
        any-retain_none (blocks q t) keep rs (λ r h. drops e r h),
      )
      | inr e ↦ ground (
        arith,
        any-append (blocks q t) (retain keep rs) (rule ∷ []),
        any-retain_all (blocks q t) keep rs (λ r. blocks-not_replaced rule r q t e),
      )
    ]
  where
    keep : Rule → Bool
    keep r = not (same_target rule r)

    drops :
        (action_beq rule.action block && path_beq rule.exe_path q) ≡ true
        → (r : Rule) → blocks q t r ≡ true
        → keep r ≡ false
    drops e r h = ground (arith, blocks-same_target rule r q t)

-- A rule that is added decides alone about its path if it blocks, until it expires, and about
-- nothing else: what was blocked or not before stays so.
pub is_blocked-add :
    (p : Platform) (run : SaveRun) (s s' : RuleStore) (input : RuleInput) (now : ℕ) (rule : Rule)
    (q : FilePath) (t : ℕ)
    → add p run s input now ≡ some (rule, s')
    → is_blocked s' q t ≡ (
        if action_beq input.action block && path_beq input.exe_path q
        then not (is_expired rule t)
        else is_blocked s q t)
unfolding add is_blocked save_locked
is_blocked-add p run s s' input now rule q t h = elim (Option-cases (expiry p input.ttl_secs now)) [
  | inl e ↦ ground arith
  | inr (x, e) ↦ ground (arith, any-put_rule (new_rule input now x s.next_id) s.rules q t)
]

any-remove :
    (id : ℕ) (rs : List Rule) (rule : Rule) (rest : List Rule) (q : FilePath) (t : ℕ)
    → Unique same_target rs
    → remove_id id rs ≡ some (rule, rest)
    → any (blocks q t) rest ≡ (
        if action_beq rule.action block && path_beq rule.exe_path q
        then false
        else any (blocks q t) rs)
any-remove id rs rule rest q t u h =
    elim (Bool-cases (action_beq rule.action block && path_beq rule.exe_path q)) [
      | inl e ↦ rw e (
          any-rest same_target id rs rule rest (blocks q t)
            (λ x px. blocks-same_target rule x q t (ground arith) (ground arith) px)
            (λ x px.
              ground (arith, blocks-same_target rule x q t, path_beq_sym x.exe_path rule.exe_path))
            h u)
      | inr e ↦ ground (arith, any-remove_id id (blocks q t) rs rule rest h)
    ]

-- In a valid store, removing a Block rule unblocks its path, and removing any rule changes
-- nothing else.
pub is_blocked-remove :
    (p : Platform) (run : SaveRun) (s s' : RuleStore) (id : ℕ) (rule : Rule) (q : FilePath) (t : ℕ)
    → IsValid s
    → remove p run s id ≡ some (rule, s')
    → is_blocked s' q t ≡ (
        if action_beq rule.action block && path_beq rule.exe_path q
        then false
        else is_blocked s q t)
unfolding remove is_blocked save_locked
is_blocked-remove p run s s' id rule q t v h = elim (Option-cases (remove_id id s.rules)) [
  | inl e ↦ ground arith
  | inr ((r, rest), e) ↦ ground (arith, any-remove id s.rules r rest q t v.targets e)
]

-- Reaping drops rules that no longer decide anything: from then on every path is blocked or not
-- exactly as before.
pub is_blocked-reap_expired :
    (p : Platform) (run : SaveRun) (s : RuleStore) (now : ℕ) (q : FilePath) (t : ℕ)
    → now ≤ t
    → is_blocked (reap_expired p run s now).1 q t ≡ is_blocked s q t
unfolding reap_expired is_blocked save_locked is_expired
is_blocked-reap_expired p run s now q t h =
    ground
      (arith, any-retain_all (blocks q t) (λ r. not (is_expired r now)) s.rules (λ r e. later r e))
  where
    later : (r : Rule) → blocks q t r ≡ true → not (is_expired r now) ≡ true
    later r e = ground arith
