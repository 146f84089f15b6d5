-- ===== src/Firewall/Throttle/Rate.antt =====
-- The rate of the log of blocked packets of crates/daemon/src/firewall.rs.
use travelmode.Base.Map
use travelmode.Base.Map.{get-insert, get_congr, get-nil}
use travelmode.Base.{
  ℕ, ◌+◌, ◌-◌, ◌*◌, ◌≤◌, ◌<◌, ◌≡◌, List, [], ◌∷◌, Option, none, some, arith, if◌then◌else◌, add_u64,
  All, Option-cases, inl, inr,
}
use travelmode.Firewall.Throttle.{
  LogAction, first, suppress, summary, ThrottleKey, throttle_beq, throttle_key, ThrottleEntry,
  LogThrottle, new, should_log, run,
}

abbrev pub line : LogAction → ℕ
line suppress = 0
line first = 1
line (summary n) = 1

-- The lines of a log for one executable and destination.
pub lines_for : ThrottleKey → List (ThrottleKey × LogAction) → ℕ
lines_for k [] = 0
lines_for k ((j, action) ∷ actions) =
    (if throttle_beq j k then line action else 0) + lines_for k actions

-- The time up to `hi` that is left to the lines to come.
budget : Option ThrottleEntry → ℕ → ℕ → ℕ
budget none hi window = hi + window
budget (some entry) hi window = hi - entry.window_start

abbrev IsStarted : Option ThrottleEntry → ℕ → Type 0
IsStarted none hi = Unit
IsStarted (some entry) hi = entry.window_start ≤ hi

should_log-window :
    (s : LogThrottle) (j : ThrottleKey) (now : ℕ) → (should_log s j now).1.window ≡ s.window
unfolding should_log
should_log-window s j now = ground arith

should_log-budget :
    (s : LogThrottle) (j k : ThrottleKey) (now hi : ℕ)
    → 0 < s.window
    → now ≤ hi
    → IsStarted (Map.get k s.entries) hi
    → (IsStarted (Map.get k (should_log s j now).1.entries) hi)
      × ((if throttle_beq j k then line (should_log s j now).0 else 0) * s.window
            + budget (Map.get k (should_log s j now).1.entries) hi s.window
          ≤ budget (Map.get k s.entries) hi s.window)
unfolding should_log budget
should_log-budget s j k now hi w h i = elim (Option-cases (Map.get j s.entries)) [
  | inl e ↦ ground (arith, e, get-insert j k fresh s.entries, get_congr j k s.entries)
  | inr (entry, e) ↦ ground (
    arith,
    e,
    get-insert j k fresh s.entries,
    get-insert j k (record entry { suppressed = add_u64 entry.suppressed 1 }) s.entries,
    get_congr j k s.entries,
  )
]
  where
    fresh : ThrottleEntry
    fresh = record { window_start = now; suppressed = 0 }

run-budget :
    (s : LogThrottle) (k : ThrottleKey) (calls : List (ThrottleKey × ℕ)) (hi : ℕ)
    → 0 < s.window
    → All (λ (c : ThrottleKey × ℕ). c.1 ≤ hi) calls
    → IsStarted (Map.get k s.entries) hi
    → lines_for k (run s calls).0 * s.window ≤ budget (Map.get k s.entries) hi s.window
unfolding run lines_for
run-budget s k [] hi w h i = omega arith
run-budget s k ((j, now) ∷ calls) hi w h i =
    let one = should_log-budget s j k now hi w h.0 i in
    let e = should_log-window s j now in
    let rest = rw e at (run-budget (should_log s j now).1 k calls hi (rw e w) h.1 one.0) in
    omega (arith, one.1, rest)

-- In any run of packets up to a time, the lines for one executable and destination are at most one
-- more than the windows that fit into that time.
pub run-new-rate :
    (window hi : ℕ) (k : ThrottleKey) (calls : List (ThrottleKey × ℕ))
    → 0 < window
    → All (λ (c : ThrottleKey × ℕ). c.1 ≤ hi) calls
    → lines_for k (run (new window) calls).0 * window ≤ hi + window
unfolding new budget
run-new-rate window hi k calls w h =
    ground (arith, get-nil {V = ThrottleEntry} k, run-budget (new window) k calls hi w h)
