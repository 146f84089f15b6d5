-- ===== src/Daemon/Main.antt =====
-- From the start of the daemon to its exit: `main` of crates/daemon/src/main.rs. What happens in
-- between is any sequence of the tasks' steps; each task that toggles the queue rule is one step of
-- its own, at any time, and so is the end of the queue worker. clap and tracing are third-party.
pub mod Cleanup
use travelmode.Base.{
  ℕ, ◌≡◌, refl, Bool, true, false, not, List, [], ◌∷◌, ◌++◌, Option, none, some, Text, text,
  FilePath, arith, Option-cases, inl, inr, if◌then◌else◌,
}
use mathlib.Core.Option
use travelmode.Types.{NetworkInfo}
use travelmode.Conntrack.{AddrText}
use travelmode.Config.{Config}
use travelmode.Rules.{Disk, Platform}
use travelmode.Procs.{UserCache}
use travelmode.State
use travelmode.State.{DaemonState}
use travelmode.Firewall.Table.{Nft, setup, teardown, toggle_task}
use travelmode.Firewall.Table.Toggle.{IsDocumented}
use travelmode.Firewall.Worker.{Queue, Worked, spawn_queue_worker}
use travelmode.Server.{SocketDir, SocketStep, serve}
use travelmode.Daemon.{Setting, refresh_network, shutdown}
use travelmode.Daemon.Tasks.{Step, System, perform}

-- RUST_LOG wins over the configuration.
unfoldable pub log_filter : Option Text → Config → Text
log_filter rust_log config =
    Option.get_or rust_log config.log_level
    ++ text ",netlink_packet_route=error,netlink_proto=error"

-- The machine's rule set beside the daemon's state.
pub record Machine (R : Type 0) : Type 0 where
  pub nft_rules : R
  pub system : System

-- What may happen while the daemon runs.
pub data Happening : Type 0 where
  step : Step → Happening
  toggle : Bool → Happening
  worker_stopped : Happening

-- How the daemon ends: its exit code, the rule set and the state that it leaves, the steps on its
-- socket, and the socket file that it removes.
pub record Exit (R : Type 0) : Type 0 where
  pub code : ℕ
  pub nft_rules : R
  pub state : DaemonState
  pub socket_steps : List SocketStep
  pub unlinked : Option FilePath

module _ {R : Type 0} (n : Nft R) (a : AddrText) where
  -- The handle is kept, and the worker spawned, only if the set-up succeeds. The packets come later,
  -- each as a step.
  unfoldable pub start_firewall : Queue → DaemonState → R → R × DaemonState
  unfolding setup spawn_queue_worker
  start_firewall q s r =
      let (handle, r') = setup n s.config.queue_num s.paused r in
      elim handle [
        | none ↦ (r', s)
        | some fw ↦
            let w : Worked =
              spawn_queue_worker a (record q { turns = [] }) (record s { firewall = some fw }) in
            (r', w.state)
      ]

  -- The task of a request to pause or to resume; its failure is only logged.
  unfoldable pub toggled : Option ℕ → Bool → R → R
  unfolding toggle_task
  toggled none paused r = r
  toggled (some fw) paused r = Option.get_or (toggle_task n fw paused r) r

  unfoldable pub happens : List Happening → Machine R → Machine R
  unfolding toggled perform
  happens [] m = m
  happens (step t ∷ hs) m = happens hs (record m { system = perform a t m.system })
  happens (toggle paused ∷ hs) m =
      happens hs (record m { nft_rules = toggled m.system.state.firewall paused m.nft_rules })
  happens (worker_stopped ∷ hs) m =
      let s : DaemonState = record m.system.state { filtering_active = false } in
      happens hs (record m { system = record m.system { state = s } })

  unfoldable pub leave : Setting → Option FilePath → ℕ → List SocketStep → Machine R → Exit R
  unfolding shutdown teardown
  leave e socket code steps m =
      let (handle, s) = shutdown e m.system.state in
      record {
        code = code;
        nft_rules = elim handle [ none ↦ m.nft_rules | some fw ↦ teardown n m.nft_rules ];
        state = s;
        socket_steps = steps;
        unlinked = socket;
      }

  -- `hs` is what happens until the signal to shut down, or until binding the socket has failed.
  unfoldable pub main :
      Setting
      → Config
      → Disk
      → Bool
      → Queue
      → NetworkInfo
      → SocketDir
      → List Happening
      → UserCache
      → R
      → Exit R
  unfolding start_firewall refresh_network happens leave serve
  main e config disk readable q network dir hs users r =
      let (r', s) = start_firewall q (State.new e.platform config disk readable e.now) r in
      let m : Machine R = happens hs (record {
        nft_rules = r';
        system = record { state = refresh_network network s; users = users };
      }) in
      let (steps, bound) = serve config.socket_path dir in
      elim bound [ none ↦ leave e none 1 steps m | some path ↦ leave e (some path) 0 steps m ]
