-- ===== src/Firewall/Throttle.antt =====
-- `LogThrottle`, the rate limiter of the log of blocked connections: crates/daemon/src/firewall.rs.
-- An `Instant` is a number of nanoseconds; `duration_since` stops at 0, as ℕ's subtraction does.
pub mod Counting
pub mod Rate
use travelmode.Base.Map
use travelmode.Base.Map.{Map}
use travelmode.Base.{
  ℕ, ◌-◌, ◌≡◌, refl, Bool, true, false, ◌&&◌, List, [], ◌∷◌, Option, none, some, Text, FilePath,
  Key, path_beq, path_beq_refl, path_beq_congr, text_beq, text_beq_refl, text_beq_congr, ltb,
  add_u64, arith, if◌then◌else◌,
}

pub data LogAction : Type 0 where
  first : LogAction
  suppress : LogAction
  summary : ℕ → LogAction

-- The executable and the destination.
abbrev pub ThrottleKey : Type 0
ThrottleKey = FilePath × Text

abbrev pub throttle_beq : ThrottleKey → ThrottleKey → Bool
throttle_beq (p, t) (q, u) = path_beq p q && text_beq t u

pub throttle_beq_refl : (k : ThrottleKey) → throttle_beq k k ≡ true
throttle_beq_refl (p, t) = ground (arith, path_beq_refl p, text_beq_refl t)

pub throttle_beq_congr :
    (a b c : ThrottleKey) → throttle_beq a b ≡ true → throttle_beq a c ≡ throttle_beq b c
throttle_beq_congr (p, t) (q, u) (r, v) h =
    ground (arith, path_beq_congr p q r, text_beq_congr t u v)

instance abbrev pub throttle_key : Key ThrottleKey
throttle_key = record {
  beq = throttle_beq;
  beq_refl = throttle_beq_refl;
  beq_congr = throttle_beq_congr;
}

pub record ThrottleEntry : Type 0 where
  pub window_start : ℕ
  pub suppressed : ℕ

pub record LogThrottle : Type 0 where
  pub window : ℕ
  pub entries : Map ThrottleKey ThrottleEntry

unfoldable pub new : ℕ → LogThrottle
new window = record { window = window; entries = [] }

-- `Default`: five seconds.
unfoldable pub default : LogThrottle
unfolding new
default = new 5000000000

unfoldable pub should_log : LogThrottle → ThrottleKey → ℕ → LogAction × LogThrottle
should_log s key now = elim (Map.get key s.entries) [
  | none ↦ (
    first,
    record s { entries = Map.insert key (record { window_start = now; suppressed = 0 }) s.entries },
  )
  | some entry ↦
      if ltb (now - entry.window_start) s.window
      then (
        suppress,
        record s {
          entries =
              Map.insert key (record entry { suppressed = add_u64 entry.suppressed 1 }) s.entries;
        },
      )
      else (
        summary (add_u64 entry.suppressed 1),
        record s {
          entries = Map.insert key (record { window_start = now; suppressed = 0 }) s.entries;
        },
      )
]

-- The actions for a sequence of blocked packets, and the limiter after it.
unfoldable pub run :
    LogThrottle → List (ThrottleKey × ℕ) → List (ThrottleKey × LogAction) × LogThrottle
run s [] = ([], s)
run s ((key, now) ∷ calls) =
    let (action, s') = should_log s key now in
    let (actions, s'') = run s' calls in ((key, action) ∷ actions, s'')
