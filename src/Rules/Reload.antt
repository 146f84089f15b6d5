-- ===== src/Rules/Reload.antt =====
-- Persistence of the rule store of crates/daemon/src/rules.rs: what a save leaves on the disk
-- however it comes out, and what a restart makes of it.
use travelmode.Base.{
  ℕ, ◌+◌, ◌<◌, ◌≤◌, ◌≡◌, refl, Bool, true, false, not, List, [], ◌∷◌, ◌⊎◌, some, arith,
  any-retain_all, retain, FilePath, Text, u64_mod,
}
use travelmode.Types.{Rule}
use travelmode.Rules.{
  Platform, Persisted, Disk, SaveRun, complete, RuleStore, is_expired, is_blocked, blocks,
  save_locked, save, load, max_id,
}
use travelmode.Rules.Invariant.{any_from}

-- What the store writes of itself.
abbrev pub persisted : RuleStore → Persisted
persisted s = record { next_id = s.next_id; rules = s.rules }

-- A save that is not cut short.
pub record Succeeds (run : SaveRun) : Type 0 where
  pub mkdir : run.mkdir_ok ≡ true
  pub written : run.write ≡ complete
  pub renamed : run.rename_ok ≡ true

-- However a save comes out, the rules file holds what it held before, or the whole text of the
-- store.
pub save_atomic :
    (p : Platform) (run : SaveRun) (s : RuleStore)
    → ((save p run s).disk.target ≡ s.disk.target)
      ⊎ ((save p run s).disk.target ≡ p.to_string_pretty (persisted s))
unfolding save
save_atomic p run s = ground arith

any_from-max_id : (rs : List Rule) (n : ℕ) → max_id rs < n → any_from n rs ≡ false
unfolding max_id
any_from-max_id [] n h = refl
any_from-max_id (r ∷ rs) n h = ground (arith, any_from-max_id rs n)

-- Whatever the file holds, a loaded store gives no id of one of its rules to a new rule.
pub load-bounded :
    (p : Platform) (path : FilePath) (disk : Disk) (readable : Bool) (now : ℕ)
    → max_id (load p path disk readable now).rules + 1 < u64_mod
    → any_from (load p path disk readable now).next_id (load p path disk readable now).rules ≡ false
unfolding load
load-bounded p path disk readable now h =
    any_from-max_id ((load p path disk readable now).rules)
      ((load p path disk readable now).next_id) (ground arith)

module _ (p : Platform)
    (parses : (q : Persisted) (t : Text)
      → p.to_string_pretty q ≡ some t
      → p.from_str t ≡ some q) where
  saved_target :
      (run : SaveRun) (s : RuleStore) (t : Text)
      → Succeeds run
      → p.to_string_pretty (persisted s) ≡ some t
      → (save_locked p run s).disk.target ≡ some t
  unfolding save_locked
  saved_target run s t ok e = ground arith

  loaded_rules :
      (path : FilePath) (d : Disk) (q : Persisted) (t : Text) (now : ℕ)
      → d.target ≡ some t
      → p.to_string_pretty q ≡ some t
      → (load p path d true now).rules ≡ retain (λ r. not (is_expired r now)) q.rules
  unfolding load
  loaded_rules path d q t now e h = ground (arith, parses q t h)

  -- After a save and a restart every path is blocked or not as it would have been without them,
  -- from the restart on: by every rule, also by one that is not persistent and has no time at which
  -- it expires, of which the documentation of `Rule` says that it ends with the daemon.
  pub is_blocked-load :
      (run : SaveRun) (s : RuleStore) (text : Text) (path : FilePath) (now t : ℕ) (q : FilePath)
      → Succeeds run
      → p.to_string_pretty (persisted s) ≡ some text
      → now ≤ t
      → is_blocked (load p path (save p run s).disk true now) q t ≡ is_blocked s q t
  unfolding is_blocked save is_expired
  is_blocked-load run s text path now t q ok e h = ground (
    arith,
    loaded_rules path (save_locked p run s).disk (persisted s) text now
        (saved_target run s text ok e) e,
    any-retain_all (blocks q t) (λ r. not (is_expired r now)) s.rules (λ r b. later r b),
  )
    where
      later : (r : Rule) → blocks q t r ≡ true → not (is_expired r now) ≡ true
      later r b = ground arith
