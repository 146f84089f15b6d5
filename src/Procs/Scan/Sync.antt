-- ===== src/Procs/Scan/Sync.antt =====
-- What a scan of crates/daemon/src/procs.rs tells subscribers.
use travelmode.Base.Map
use travelmode.Base.Map.{Map, get_congr, get-insert, get-remove}
use travelmode.Base.{
  ℕ, ◌≡◌, refl, Bool, true, not, ◌&&◌, ◌||◌, List, [], ◌∷◌, ◌++◌, Option, none, some, arith, any,
  nat_beq, nat_key, Option-cases, Bool-cases, inl, inr,
}
use travelmode.Types.{
  ProcessInfo, Event, connection_opened, connection_updated, connection_closed, process_started,
  process_exited, rule_added, rule_removed, paused_changed, network_changed,
}
use travelmode.World.{World, Process}
use travelmode.State.{DaemonState, publish}
use travelmode.State.Events.{fold_events, fold_events-append}
use travelmode.Procs.{UserCache, inspect_process}
use travelmode.Procs.Scan.{collect, announce_started, announce_exited, scan_once}

-- A subscriber's own table of processes, kept from the events alone.
abbrev pub heard : Event → Map ℕ ProcessInfo → Map ℕ ProcessInfo
heard (process_started p) m = Map.insert p.pid p m
heard (process_exited pid) m = Map.remove pid m
heard (connection_opened c) m = m
heard (connection_updated c) m = m
heard (connection_closed k) m = m
heard (rule_added r) m = m
heard (rule_removed i) m = m
heard (paused_changed b) m = m
heard (network_changed n) m = m

abbrev pub is_heard : ℕ → List Event → Bool
is_heard pid events = Map.contains_key pid (fold_events heard events [])

-- The subscriber has the pids that the daemon lists.
abbrev pub InSync : DaemonState → Type 0
InSync s = (pid : ℕ) → is_heard pid s.events ≡ Map.contains_key pid s.processes

is_heard-started :
    (events : List Event) (p : ProcessInfo) (pid : ℕ)
    → is_heard pid (events ++ process_started p ∷ []) ≡ (nat_beq p.pid pid || is_heard pid events)
unfolding Map.contains_key
is_heard-started events p pid = ground (
  arith,
  fold_events-append heard events (process_started p) [],
  get-insert p.pid pid p (fold_events heard events []),
)

is_heard-exited :
    (events : List Event) (gone pid : ℕ)
    → is_heard pid (events ++ process_exited gone ∷ [])
      ≡ (not (nat_beq gone pid) && is_heard pid events)
unfolding Map.contains_key
is_heard-exited events gone pid = ground (
  arith,
  fold_events-append heard events (process_exited gone) [],
  get-remove gone pid (fold_events heard events []),
)

contains_key_congr :
    (j k : ℕ) (m : Map ℕ ProcessInfo)
    → nat_beq j k ≡ true
    → Map.contains_key j m ≡ Map.contains_key k m
unfolding Map.contains_key
contains_key_congr j k m h = ground (arith, get_congr j k m h)

-- Each process stands under its own pid.
abbrev Keyed : Map ℕ ProcessInfo → Type 0
Keyed [] = Unit
Keyed ((pid, p) ∷ m) = (nat_beq p.pid pid ≡ true) × Keyed m

insert-Keyed : (p : ProcessInfo) (m : Map ℕ ProcessInfo) → Keyed m → Keyed (Map.insert p.pid p m)
unfolding Map.insert
insert-Keyed p [] h = (ground arith, tt)
insert-Keyed p ((j, q) ∷ m) (e, h) = elim (Bool-cases (nat_beq j p.pid)) [
  | inl t ↦ rw t (ground arith, h)
  | inr t ↦ rw t (e, insert-Keyed p m h)
]

collect-Keyed :
    (w : World) (procs : List (Option Process)) (users : UserCache) (m : Map ℕ ProcessInfo)
    → Keyed m
    → Keyed (collect w procs users m).0
unfolding collect
collect-Keyed w [] users m h = h
collect-Keyed w (none ∷ procs) users m h = collect-Keyed w procs users m h
collect-Keyed w (some proc ∷ procs) users m h =
    elim (Option-cases (inspect_process w proc users).0) [
      | inl e ↦ rw (e, collect) (collect-Keyed w procs (inspect_process w proc users).1 m h)
      | inr (info, e) ↦
          rw (e, collect)
            (collect-Keyed w procs (inspect_process w proc users).1 (Map.insert info.pid info m)
              (insert-Keyed info m h))
    ]

pub announce_started-processes :
    (current : Map ℕ ProcessInfo) (s : DaemonState)
    → (announce_started current s).processes ≡ s.processes
unfolding announce_started
announce_started-processes [] s = refl
announce_started-processes ((pid, p) ∷ current) s =
    elim (Bool-cases (Map.contains_key pid s.processes)) [
      | inl e ↦ ground (arith, announce_started-processes current s)
      | inr e ↦ ground (arith, announce_started-processes current (publish (process_started p) s))
    ]

announce_started-is_heard :
    (current : Map ℕ ProcessInfo) (s : DaemonState) (k : ℕ)
    → Keyed current
    → is_heard k (announce_started current s).events ≡ (
        is_heard k s.events || (Map.contains_key k current && not (Map.contains_key k s.processes)))
unfolding announce_started Map.contains_key Map.get
announce_started-is_heard [] s k h = ground arith
announce_started-is_heard ((pid, p) ∷ current) s k (e, h) =
    elim (Bool-cases (Map.contains_key pid s.processes)) [
      | inl t ↦
          ground
            (arith, announce_started-is_heard current s k h, contains_key_congr pid k s.processes)
      | inr t ↦ ground (
        arith,
        announce_started-is_heard current (publish (process_started p) s) k h,
        is_heard-started s.events p k,
        contains_key_congr pid k s.processes,
      )
    ]

announce_exited-is_heard :
    (pids : List ℕ) (current : Map ℕ ProcessInfo) (s : DaemonState) (k : ℕ)
    → is_heard k (announce_exited pids current s).events ≡ (
        is_heard k s.events
        && not (any (λ j. nat_beq j k) pids && not (Map.contains_key k current)))
unfolding announce_exited
announce_exited-is_heard [] current s k = ground arith
announce_exited-is_heard (pid ∷ pids) current s k =
    elim (Bool-cases (Map.contains_key pid current)) [
      | inl t ↦
          ground
            (arith, announce_exited-is_heard pids current s k, contains_key_congr pid k current)
      | inr t ↦ ground (
        arith,
        announce_exited-is_heard pids current (publish (process_exited pid) s) k,
        is_heard-exited s.events pid k,
        contains_key_congr pid k current,
      )
    ]

any-keys :
    (m : Map ℕ ProcessInfo) (k : ℕ) → any (λ j. nat_beq j k) (Map.keys m) ≡ Map.contains_key k m
unfolding Map.keys Map.contains_key Map.get
any-keys [] k = refl
any-keys ((j, p) ∷ m) k = ground (arith, any-keys m k)

-- After a scan, who follows every event from the start lists exactly the pids that the daemon
-- lists, if it was so before.
pub scan_once-InSync :
    (w : World) (users : UserCache) (s : DaemonState) → InSync s → InSync (scan_once w users s).0
unfolding scan_once
scan_once-InSync w users s h k = elim (Option-cases w.all_processes) [
  | inl e ↦ rw (e, scan_once) (h k)
  | inr (procs, e) ↦
      let current : Map ℕ ProcessInfo = (collect w procs users []).0 in
      ground (
        arith,
        announce_exited-is_heard (Map.keys s.processes) current (announce_started current s) k,
        announce_started-is_heard current s k (collect-Keyed w procs users [] tt),
        any-keys s.processes k,
        h k,
      )
]
