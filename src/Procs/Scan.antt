-- ===== src/Procs/Scan.antt =====
-- `scan_once` of crates/daemon/src/procs.rs.
pub mod Sync
use travelmode.Base.Map
use travelmode.Base.Map.{Map}
use travelmode.Base.{ℕ, List, [], ◌∷◌, Option, none, some, nat_key, if◌then◌else◌}
use travelmode.Types.{ProcessInfo, process_started, process_exited}
use travelmode.World.{World, Process}
use travelmode.Procs.{UserCache, inspect_process}
use travelmode.State.{DaemonState, publish}

unfoldable pub collect :
    World → List (Option Process) → UserCache → Map ℕ ProcessInfo → Map ℕ ProcessInfo × UserCache
collect w [] users m = (m, users)
collect w (none ∷ procs) users m = collect w procs users m
collect w (some proc ∷ procs) users m =
    let (found, users') = inspect_process w proc users in
    collect w procs users' (elim found [ none ↦ m | some info ↦ Map.insert info.pid info m ])

unfoldable pub announce_started : Map ℕ ProcessInfo → DaemonState → DaemonState
announce_started [] s = s
announce_started ((pid, info) ∷ current) s =
    announce_started current
      (if Map.contains_key pid s.processes then s else publish (process_started info) s)

unfoldable pub announce_exited : List ℕ → Map ℕ ProcessInfo → DaemonState → DaemonState
announce_exited [] current s = s
announce_exited (pid ∷ pids) current s =
    announce_exited pids current
      (if Map.contains_key pid current then s else publish (process_exited pid) s)

-- The state and the cache of user names, which the task keeps to itself.
unfoldable pub scan_once : World → UserCache → DaemonState → DaemonState × UserCache
unfolding collect announce_started announce_exited
scan_once w users s = elim w.all_processes [
  | none ↦ (s, users)
  | some procs ↦
      let (current, users') = collect w procs users [] in
      let s' : DaemonState =
        announce_exited (Map.keys s.processes) current (announce_started current s) in
      (record s' { processes = current }, users')
]
