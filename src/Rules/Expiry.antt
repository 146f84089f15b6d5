-- ===== src/Rules/Expiry.antt =====
-- The lifetime of a temporary rule of crates/daemon/src/rules.rs, by chrono's documentation of
-- `TimeDelta::seconds` and `DateTime::checked_add_signed`.
use travelmode.Base.{
  ℕ, suc, ◌+◌, ◌*◌, ◌-◌, ◌<◌, ◌≤◌, ◌≡◌, none, some, arith, ltb, u64_mod, path_beq_refl, pos, negsuc,
}
use travelmode.Types.{Rule, RuleInput, block}
use travelmode.Rules.{Platform, SaveRun, RuleStore, is_expired, is_blocked, expiry, add}
use travelmode.Rules.Blocking.{is_blocked-add}

-- `i64::MAX / 1000`, the largest number of seconds that a duration holds.
abbrev pub max_seconds : ℕ
max_seconds = 9223372036854775

abbrev pub nanos : ℕ
nanos = 1000000000

-- A duration is a signed number of nanoseconds; dates end at `latest`.
pub record IsDocumented (p : Platform) (latest : ℕ) : Type 0 where
  pub seconds_in_range : (n : ℕ) → n ≤ max_seconds → p.seconds (pos n) ≡ some (pos (n * nanos))
  pub seconds_above : (n : ℕ) → max_seconds < n → p.seconds (pos n) ≡ none
  pub seconds_negative :
      (n : ℕ) → n < max_seconds → p.seconds (negsuc n) ≡ some (negsuc (n * nanos + (nanos - 1)))
  pub seconds_below : (n : ℕ) → max_seconds ≤ n → p.seconds (negsuc n) ≡ none
  pub add_in_range : (t d : ℕ) → t + d ≤ latest → p.checked_add_signed t (pos d) ≡ some (t + d)
  pub add_above : (t d : ℕ) → latest < t + d → p.checked_add_signed t (pos d) ≡ none
  pub add_negative :
      (t d : ℕ) → d < t → t ≤ latest → p.checked_add_signed t (negsuc d) ≡ some (t - suc d)

module _ (p : Platform) (latest : ℕ) (doc : IsDocumented p latest) where
  expiry_in_range :
      (ttl now : ℕ)
      → ttl ≤ max_seconds
      → now + ttl * nanos ≤ latest
      → expiry p (some ttl) now ≡ some (some (now + ttl * nanos))
  unfolding expiry
  expiry_in_range ttl now h l =
      ground (arith, doc.seconds_in_range ttl h, doc.add_in_range now (ttl * nanos) l)

  -- A temporary Block rule blocks its path from now on and until its time has passed, and then no
  -- longer.
  pub is_blocked-add_ttl :
      (run : SaveRun) (s s' : RuleStore) (input : RuleInput) (now ttl : ℕ) (rule : Rule) (t : ℕ)
      → input.action ≡ block
      → input.ttl_secs ≡ some ttl
      → ttl ≤ max_seconds
      → now + ttl * nanos ≤ latest
      → add p run s input now ≡ some (rule, s')
      → is_blocked s' input.exe_path t ≡ ltb t (now + ttl * nanos)
  unfolding add is_expired
  is_blocked-add_ttl run s s' input now ttl rule t b e h l a = ground (
    arith,
    is_blocked-add p run s s' input now rule input.exe_path t a,
    path_beq_refl input.exe_path,
    expiry_in_range ttl now h l,
  )

  -- A time to live above the range of a duration makes `add` panic, unless it is so large that it
  -- wraps to a small negative number.
  pub add_panics :
      (run : SaveRun) (s : RuleStore) (input : RuleInput) (now ttl : ℕ)
      → input.ttl_secs ≡ some ttl
      → max_seconds < ttl
      → ttl + max_seconds < u64_mod
      → add p run s input now ≡ none
  unfolding add expiry
  add_panics run s input now ttl e h k =
      ground (arith, doc.seconds_above ttl h, doc.seconds_below (u64_mod - 1 - ttl))
