-- ===== src/Rules.antt =====
-- The rule store: crates/daemon/src/rules.rs. The lock makes every method one step on `RuleStore`;
-- the clock (`Utc::now`) is an argument. `disk` is what stands at `path` and at its temporary file.
-- serde_json and chrono are third-party: `Platform` holds what the store calls of them.
pub mod Removal
pub mod Invariant
pub mod Blocking
pub mod Reload
pub mod Expiry
pub mod Told
pub mod Replay
use travelmode.Base.{
  ℕ, Bool, true, false, not, ◌&&◌, List, [], ◌∷◌, ◌++◌, map, max, Option, none, some, Text,
  FilePath, text, path_beq, nat_beq, leb, length, retain, any, if◌then◌else◌, add_u64, ℤ, as_i64,
}
use travelmode.Types.{Rule, RuleInput, RuleAction, block, action_beq}

pub record Persisted : Type 0 where
  pub next_id : ℕ
  pub rules : List Rule

-- `Duration::seconds` panics out of its range (`none`); `checked_add_signed` returns `None` when
-- the sum is no date.
pub record Platform : Type 0 where
  pub to_string_pretty : Persisted → Option Text
  pub from_str : Text → Option Persisted
  pub seconds : ℤ → Option ℤ
  pub checked_add_signed : ℕ → ℤ → Option ℕ

pub record Disk : Type 0 where
  pub target : Option Text
  pub tmp : Option Text

-- How the calls of one save come out. A write that fails leaves anything in the temporary file.
pub data Write : Type 0 where
  complete : Write
  failed : Option Text → Write

pub record SaveRun : Type 0 where
  pub mkdir_ok : Bool
  pub write : Write
  pub rename_ok : Bool

pub record RuleStore : Type 0 where
  pub next_id : ℕ
  pub rules : List Rule
  pub path : FilePath
  pub disk : Disk

unfoldable pub is_expired : Rule → ℕ → Bool
is_expired rule now = elim rule.expires_at [ none ↦ false | some exp ↦ leb exp now ]

-- The closures of `add`, `remove` and `is_blocked`.
abbrev pub same_target : Rule → Rule → Bool
same_target rule r = path_beq r.exe_path rule.exe_path && action_beq r.action rule.action

abbrev pub blocks : FilePath → ℕ → Rule → Bool
blocks exe_path now r =
    action_beq r.action block && path_beq r.exe_path exe_path && not (is_expired r now)

unfoldable pub is_blocked : RuleStore → FilePath → ℕ → Bool
is_blocked s exe_path now = any (blocks exe_path now) s.rules

unfoldable pub list : RuleStore → List Rule
list s = s.rules

unfoldable pub count : RuleStore → ℕ
count s = length s.rules

write_tmp : Write → Text → Disk → Option Disk
write_tmp complete t d = some (record d { tmp = some t })
write_tmp (failed left) t d = none

-- What a failed write leaves behind.
after_failed : Write → Disk → Disk
after_failed complete d = d
after_failed (failed left) d = record d { tmp = left }

rename : Bool → Disk → Disk
rename true d = record { target = d.tmp; tmp = none }
rename false d = d

-- `position` and `Vec::remove`.
unfoldable pub remove_id : ℕ → List Rule → Option (Rule × List Rule)
remove_id id [] = none
remove_id id (r ∷ rs) =
    let rest : Option (Rule × List Rule) = elim (remove_id id rs) [
      | none ↦ none
      | some (x, l) ↦ some (x, r ∷ l)
    ] in
    if nat_beq r.id id then some (r, rs) else rest

-- `ids.max().unwrap_or(0)`
pub max_id : List Rule → ℕ
max_id [] = 0
max_id (r ∷ rs) = max r.id (max_id rs)

abbrev pub new_rule : RuleInput → ℕ → Option ℕ → ℕ → Rule
new_rule input now expires_at id = record {
  id = id;
  name = input.name;
  exe_path = input.exe_path;
  action = input.action;
  persistent = input.persistent;
  expires_at = expires_at;
  profile = text "default";
  updated_at = now;
}

-- The store after the rule is put in, before it is saved.
abbrev pub put_rule : Rule → RuleStore → RuleStore
put_rule rule s = record s {
  next_id = add_u64 s.next_id 1;
  rules = retain (λ r. not (same_target rule r)) s.rules ++ rule ∷ [];
}

module _ (p : Platform) where
  save_text : SaveRun → Option Text → Disk → Disk
  save_text run none d = d
  save_text run (some t) d =
      if run.mkdir_ok
      then (elim (write_tmp run.write t d) [
        | none ↦ after_failed run.write d
        | some d' ↦ rename run.rename_ok d'
      ])
      else d

  unfoldable pub save_locked : SaveRun → RuleStore → RuleStore
  unfolding save_text write_tmp after_failed rename
  save_locked run s = record s {
    disk =
        save_text run (p.to_string_pretty (record { next_id = s.next_id; rules = s.rules })) s.disk;
  }

  -- `readable` is false when reading fails for another reason than a missing file.
  read_persisted : Bool → Disk → Option Persisted
  read_persisted false d = none
  read_persisted true d = elim d.target [ none ↦ none | some t ↦ p.from_str t ]

  unfoldable pub load : FilePath → Disk → Bool → ℕ → RuleStore
  unfolding read_persisted max_id
  load path disk readable now =
      let persisted : Persisted = elim (read_persisted readable disk) [
        | none ↦ record { next_id = 1; rules = [] }
        | some q ↦ q
      ] in
      let kept : List Rule = retain (λ r. not (is_expired r now)) persisted.rules in
      record {
        next_id = max persisted.next_id (add_u64 (max_id kept) 1);
        rules = kept;
        path = path;
        disk = disk;
      }

  -- `ttl.and_then(..)`; the outer `none` is the panic of `Duration::seconds`.
  unfoldable pub expiry : Option ℕ → ℕ → Option (Option ℕ)
  expiry none now = some none
  expiry (some ttl) now = elim (p.seconds (as_i64 ttl)) [
    | none ↦ none
    | some d ↦ some (p.checked_add_signed now d)
  ]

  -- `none` is a panic, which comes before the lock is taken.
  unfoldable pub add : SaveRun → RuleStore → RuleInput → ℕ → Option (Rule × RuleStore)
  unfolding expiry save_locked
  add run s input now = elim (expiry input.ttl_secs now) [
    | none ↦ none
    | some expires_at ↦
        let rule : Rule = new_rule input now expires_at s.next_id in
        some (rule, save_locked run (put_rule rule s))
  ]

  unfoldable pub remove : SaveRun → RuleStore → ℕ → Option (Rule × RuleStore)
  unfolding remove_id save_locked
  remove run s id = elim (remove_id id s.rules) [
    | none ↦ none
    | some (rule, rest) ↦ some (rule, save_locked run (record s { rules = rest }))
  ]

  unfoldable pub reap_expired : SaveRun → RuleStore → ℕ → List ℕ × RuleStore
  unfolding save_locked
  reap_expired run s now =
      let kept : List Rule = retain (λ r. not (is_expired r now)) s.rules in
      let s' : RuleStore = record s { rules = kept } in
      (
        map (λ (r : Rule). r.id) (retain (λ r. is_expired r now) s.rules),
        if nat_beq (length kept) (length s.rules) then s' else save_locked run s',
      )

  -- `save`, on shutdown.
  unfoldable pub save : SaveRun → RuleStore → RuleStore
  unfolding save_locked
  save run s = save_locked run s

-- The calls on a store, for properties of whole histories. A call that panics or finds nothing
-- leaves the store as it was.
pub data Call : Type 0 where
  add_call : RuleInput → Call
  remove_call : ℕ → Call
  reap_call : Call

abbrev pub store_after {ℓ} : {A : Type ℓ} → RuleStore → Option (A × RuleStore) → RuleStore
store_after s none = s
store_after s (some (a, s')) = s'
