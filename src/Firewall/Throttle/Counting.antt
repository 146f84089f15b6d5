-- ===== src/Firewall/Throttle/Counting.antt =====
-- No blocked packet is lost from the log of crates/daemon/src/firewall.rs: each is reported by a
-- line or still counted.
use travelmode.Base.Map
use travelmode.Base.Map.{get-insert, get_congr, get-nil}
use travelmode.Base.{
  ℕ, ◌+◌, ◌≤◌, ◌<◌, ◌≡◌, List, [], ◌∷◌, Option, none, some, length, arith, if◌then◌else◌, u64_mod,
  add_u64, Option-cases, inl, inr,
}
use travelmode.Firewall.Throttle.{
  LogAction, first, suppress, summary, ThrottleKey, throttle_beq, throttle_key, ThrottleEntry,
  LogThrottle, new, should_log, run,
}

-- The packets that one line stands for.
abbrev pub reported : LogAction → ℕ
reported first = 1
reported suppress = 0
reported (summary n) = n

pub reported_for : ThrottleKey → List (ThrottleKey × LogAction) → ℕ
reported_for k [] = 0
reported_for k ((j, action) ∷ actions) =
    (if throttle_beq j k then reported action else 0) + reported_for k actions

pub calls_for : ThrottleKey → List (ThrottleKey × ℕ) → ℕ
calls_for k [] = 0
calls_for k ((j, now) ∷ calls) = (if throttle_beq j k then 1 else 0) + calls_for k calls

-- The packets that no line stands for yet.
pending_in : Option ThrottleEntry → ℕ
pending_in none = 0
pending_in (some entry) = entry.suppressed

pub pending : ThrottleKey → LogThrottle → ℕ
unfolding pending_in
pending k s = pending_in (Map.get k s.entries)

should_log-counts :
    (s : LogThrottle) (j k : ThrottleKey) (now : ℕ)
    → pending k s + 1 < u64_mod
    → (if throttle_beq j k then reported (should_log s j now).0 else 0)
        + pending k (should_log s j now).1
      ≡ (if throttle_beq j k then 1 else 0) + pending k s
unfolding should_log pending
should_log-counts s j k now h = elim (Option-cases (Map.get j s.entries)) [
  | inl e ↦ ground (arith, e, get-insert j k fresh s.entries, get_congr j k s.entries)
  | inr (entry, e) ↦ ground (
    arith,
    e,
    get-insert j k fresh s.entries,
    get-insert j k (record entry { suppressed = add_u64 entry.suppressed 1 }) s.entries,
    get_congr j k s.entries,
  )
]
  where
    fresh : ThrottleEntry
    fresh = record { window_start = now; suppressed = 0 }

pending-le :
    (s : LogThrottle) (j k : ThrottleKey) (now : ℕ)
    → pending k s + 1 < u64_mod
    → pending k (should_log s j now).1 ≤ pending k s + 1
pending-le s j k now h = ground (arith, should_log-counts s j k now)

run-counts :
    (s : LogThrottle) (k : ThrottleKey) (calls : List (ThrottleKey × ℕ))
    → pending k s + length calls < u64_mod
    → reported_for k (run s calls).0 + pending k (run s calls).1 ≡ calls_for k calls + pending k s
unfolding run reported_for calls_for
run-counts s k [] h = omega arith
run-counts s k ((j, now) ∷ calls) h = ground (
  arith,
  should_log-counts s j k now,
  run-counts (should_log s j now).1 k calls,
  pending-le s j k now,
)

-- For every executable and destination, the packets that the lines of a run report and those still
-- counted are together the packets that were blocked.
pub run-new-counts :
    (window : ℕ) (k : ThrottleKey) (calls : List (ThrottleKey × ℕ))
    → length calls < u64_mod
    → reported_for k (run (new window) calls).0 + pending k (run (new window) calls).1
      ≡ calls_for k calls
unfolding pending new
run-new-counts window k calls h =
    ground (arith, get-nil {V = ThrottleEntry} k, run-counts (new window) k calls)
