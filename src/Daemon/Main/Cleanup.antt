-- ===== src/Daemon/Main/Cleanup.antt =====
-- What the daemon leaves behind in nftables: `main` and `shutdown` of crates/daemon/src/main.rs.
use travelmode.Base.{
  ℕ, ◌≡◌, refl, Bool, false, not, List, [], ◌∷◌, Option, none, some, arith, Option-cases, inl, inr,
}
use travelmode.Types.{NetworkInfo, RuleInput, rule_removed}
use travelmode.Conntrack.{AddrText}
use travelmode.Config.{Config}
use travelmode.Rules
use travelmode.Rules.{Disk, RuleStore}
use travelmode.Procs.{UserCache}
use travelmode.State
use travelmode.State.{DaemonState, publish}
use travelmode.Firewall.Table.{Nft, setup, teardown, best_effort, delete_args, table_script}
use travelmode.Firewall.Table.Toggle.{IsDocumented, IsPermitted, best_effort-deleted}
use travelmode.Firewall.Worker.{Queue, spawn_queue_worker}
use travelmode.Server.{SocketDir, serve}
use travelmode.Ipc.{
  Request, ping, get_status, get_network, get_processes, get_connections, get_top, list_rules,
  add_rule, remove_rule, set_paused, subscribe,
}
use travelmode.Daemon.{
  Setting, dispatch, handle_add_rule, handle_remove_rule, handle_set_paused, announce_reaped,
  reap_once, refresh_network, shutdown,
}
use travelmode.Daemon.Tasks.{
  after_request, Step, request, packet, poll, scan, reap, network_read, System, perform,
}
use travelmode.Daemon.Tasks.Kept.{Listener, Kept}
use travelmode.Daemon.Tasks.Tables.{poll_once-Kept, scan_once-Kept}
use travelmode.Daemon.Tasks.Packets.{decide-Kept}
use travelmode.Daemon.Main.{
  Machine, Happening, step, toggle, worker_stopped, Exit, start_firewall, toggled, happens, leave,
  main,
}

-- Who looks at the nftables handle alone, which no event is about.
handle : Listener (Unit {0}) (Option ℕ)
handle = record { heard = λ e m. m; start = tt; view = λ r p c h. h }

add_rule-firewall :
    (e : Setting) (s : DaemonState) (input : RuleInput)
    → (after_request s (handle_add_rule e s input)).firewall ≡ s.firewall
unfolding handle_add_rule
add_rule-firewall e s input =
    elim (Option-cases (Rules.add e.platform e.saving s.rules input e.now)) [
      | inl f ↦ rw (f, handle_add_rule) refl
      | inr ((stored, store), f) ↦ rw (f, handle_add_rule) refl
    ]

remove_rule-firewall :
    (e : Setting) (s : DaemonState) (id : ℕ) → (handle_remove_rule e s id).1.firewall ≡ s.firewall
unfolding handle_remove_rule
remove_rule-firewall e s id = elim (Option-cases (Rules.remove e.platform e.saving s.rules id)) [
  | inl f ↦ rw (f, handle_remove_rule) refl
  | inr ((rule, store), f) ↦ rw (f, handle_remove_rule) refl
]

dispatch-firewall :
    (e : Setting) (s : DaemonState) (r : Request)
    → (after_request s (dispatch e s r)).firewall ≡ s.firewall
unfolding dispatch handle_set_paused
dispatch-firewall e s ping = refl
dispatch-firewall e s get_status = refl
dispatch-firewall e s get_network = refl
dispatch-firewall e s get_processes = refl
dispatch-firewall e s get_connections = refl
dispatch-firewall e s get_top = refl
dispatch-firewall e s list_rules = refl
dispatch-firewall e s (add_rule rule) = add_rule-firewall e s rule
dispatch-firewall e s (remove_rule id) = remove_rule-firewall e s id
dispatch-firewall e s (set_paused paused) = refl
dispatch-firewall e s subscribe = refl

announce_reaped-firewall :
    (ids : List ℕ) (s : DaemonState) → (announce_reaped ids s).firewall ≡ s.firewall
unfolding announce_reaped
announce_reaped-firewall [] s = refl
announce_reaped-firewall (id ∷ ids) s = announce_reaped-firewall ids (publish (rule_removed id) s)

perform-firewall :
    (a : AddrText) (t : Step) (y : System) → (perform a t y).state.firewall ≡ y.state.firewall
unfolding perform reap_once refresh_network handle
perform-firewall a (request e r) y = dispatch-firewall e y.state r
perform-firewall a (packet p) y = (decide-Kept handle a y.state p).same_view
perform-firewall a (poll w now) y = Kept.same_view (
    poll_once-Kept handle
      (record {
        opened = λ c m. refl;
        updated = λ c m. refl;
        closed = λ k m. refl;
        unseen = λ r p c d h. refl;
      })
      a w now y.state)
perform-firewall a (scan w) y = Kept.same_view (
    scan_once-Kept handle
      (record { started = λ p m. refl; exited = λ p m. refl; unseen = λ r p q c h. refl }) w y.users
      y.state)
perform-firewall a (reap e) y =
    announce_reaped-firewall (Rules.reap_expired e.platform e.saving y.state.rules e.now).0
      (record y.state { rules = (Rules.reap_expired e.platform e.saving y.state.rules e.now).1 })
perform-firewall a (network_read m) y = refl

spawn_queue_worker-firewall :
    (a : AddrText) (q : Queue) (s : DaemonState)
    → (spawn_queue_worker a (record q { turns = [] }) s).state.firewall ≡ s.firewall
unfolding spawn_queue_worker
spawn_queue_worker-firewall a q s = elim (Option-cases q.open_error) [
  | inr (why, e) ↦ rw (e, spawn_queue_worker) refl
  | inl e ↦ elim (Option-cases q.bind_error) [
    | inl f ↦ rw (e, spawn_queue_worker, f, spawn_queue_worker) refl
    | inr (why, f) ↦ rw (e, spawn_queue_worker, f, spawn_queue_worker) refl
  ]
]

module _ {R : Type 0} (n : Nft R) (has_table : R → Bool) (queues : R → ℕ)
    (d : IsDocumented n has_table queues) (root : IsPermitted n has_table) (a : AddrText) where
  -- Without a handle, nothing is queued.
  abbrev IsSettled : Option ℕ → R → Type 0
  IsSettled fw r = fw ≡ none → queues r ≡ 0

  setup-cleared :
      (q : ℕ) (paused : Bool) (r r' : R) → setup n q paused r ≡ (none, r') → queues r' ≡ 0
  unfolding setup
  setup-cleared q paused r r' h =
      let r0 : R = best_effort n delete_args r in
      elim (Option-cases (n.nft_stdin (table_script (not paused) q) r0)) [
        | inl e ↦ ground (arith, best_effort-deleted n has_table queues d root r)
        | inr (r1, e) ↦ absurd (ground arith)
      ]

  start_firewall-IsSettled :
      (q : Queue) (s : DaemonState) (r : R)
      → s.firewall ≡ none
      → IsSettled (start_firewall n a q s r).1.firewall (start_firewall n a q s r).0
  unfolding start_firewall
  start_firewall-IsSettled q s r h = set_up (setup n s.config.queue_num s.paused r) refl
    where
      set_up :
          (o : Option ℕ × R)
          → setup n s.config.queue_num s.paused r ≡ o
          → IsSettled (start_firewall n a q s r).1.firewall (start_firewall n a q s r).0
      set_up (none, r') e =
          rw (e, start_firewall, e) (λ _. setup-cleared s.config.queue_num s.paused r r' e)
      set_up (some fw, r') e =
          rw (e, start_firewall)
            (λ f.
              absurd
                (ground (arith, spawn_queue_worker-firewall a q (record s { firewall = some fw }))))

  happens-IsSettled :
      (hs : List Happening) (m : Machine R)
      → IsSettled m.system.state.firewall m.nft_rules
      → IsSettled (happens n a hs m).system.state.firewall (happens n a hs m).nft_rules
  unfolding happens toggled
  happens-IsSettled [] m h = h
  happens-IsSettled (step t ∷ hs) m h =
      happens-IsSettled hs (record m { system = perform a t m.system })
        (rw (perform-firewall a t m.system) h)
  happens-IsSettled (toggle paused ∷ hs) m h =
      happens-IsSettled hs
        (record m { nft_rules = toggled n a m.system.state.firewall paused m.nft_rules })
        (λ f. rw (f, toggled) (h f))
  happens-IsSettled (worker_stopped ∷ hs) m h =
      happens-IsSettled hs
        (record m {
          system = record m.system { state = record m.system.state { filtering_active = false } };
        })
        h

  leave-queues :
      (e : Setting) (socket : Option _) (code : ℕ) (steps : List _) (m : Machine R)
      → IsSettled m.system.state.firewall m.nft_rules
      → queues (Exit.nft_rules (leave n a e socket code steps m)) ≡ 0
  unfolding leave shutdown teardown
  leave-queues e socket code steps m h = elim (Option-cases m.system.state.firewall) [
    | inl f ↦ rw (f, leave) (h f)
    | inr (fw, f) ↦ rw (f, leave) (best_effort-deleted n has_table queues d root m.nft_rules)
  ]

-- Where nft does what its manual says, a daemon that may change the rule set leaves no queue rule
-- behind when it ends, on a signal or because its socket cannot be bound: whatever rule set it found,
-- whether an older table was there to delete, whether its table and its queue could be set up, and
-- whatever happened meanwhile.
pub main-queues :
    {R : Type 0} (n : Nft R) (has_table : R → Bool) (queues : R → ℕ) (a : AddrText) (e : Setting)
    (config : Config) (disk : Disk) (readable : Bool) (q : Queue) (network : NetworkInfo)
    (dir : SocketDir) (hs : List Happening) (users : UserCache) (r : R)
    → IsDocumented n has_table queues
    → IsPermitted n has_table
    → queues (Exit.nft_rules (main n a e config disk readable q network dir hs users r)) ≡ 0
unfolding main refresh_network State.new
main-queues {R = R} n has_table queues a e config disk readable q network dir hs users r d root =
    let s : DaemonState = State.new e.platform config disk readable e.now in
    let started : R × DaemonState = start_firewall n a q s r in
    let m : Machine R = record {
      nft_rules = started.0;
      system = record { state = refresh_network network started.1; users = users };
    } in
    let h : IsSettled n has_table queues d root a (happens n a hs m).system.state.firewall
        (happens n a hs m).nft_rules =
      happens-IsSettled n has_table queues d root a hs m
        (start_firewall-IsSettled n has_table queues d root a q s r refl) in
    elim (Option-cases (serve config.socket_path dir).1) [
      | inl f ↦
          rw (f, main)
            (leave-queues n has_table queues d root a e none 1 (serve config.socket_path dir).0
              (happens n a hs m) h)
      | inr (path, f) ↦
          rw (f, main)
            (leave-queues n has_table queues d root a e (some path) 0
              (serve config.socket_path dir).0 (happens n a hs m) h)
    ]
