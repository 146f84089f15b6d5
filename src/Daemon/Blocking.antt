-- ===== src/Daemon/Blocking.antt =====
-- What a request of crates/daemon/src/main.rs does to the rules that the other parts enforce.
use mathlib.Core.Path.{subst}
use travelmode.Base.Map
use travelmode.Base.{
  ℕ, ◌+◌, ◌≡◌, ◌<◌, true, false, Option, none, some, Text, FilePath, arith, u64_mod, add_u64,
  Option-cases, inl, inr, path_beq, text_key,
}
use travelmode.Types.{RuleInput, block, rule_added, ConnectionInfo, Protocol, IpAddr, Rule}
use travelmode.Rules
use travelmode.Rules.{new_rule, RuleStore, expiry, is_expired, is_blocked, save_locked, store_after}
use travelmode.Rules.Blocking.{is_blocked-add}
use travelmode.Rules.Invariant.{IsValid, add-IsValid, remove-IsValid}
use travelmode.State.{DaemonState, publish, attribute}
use travelmode.FlowKill.{owned_by, kill_flows_for_exe}
use travelmode.FlowKill.Victims.{IsCut, kill_flows_for_exe-IsCut}
use travelmode.Firewall.Packet.{parse_packet, accepted}
use travelmode.Firewall.Verdict.{drop, Arrival, decide}
use travelmode.Firewall.Verdict.Exact.{decide-IsForbidden, outcome}
use travelmode.Ipc.{
  Request, Response, add_rule, remove_rule, set_paused, ok, ping, get_status, get_network,
  get_processes, get_connections, get_top, list_rules, subscribe,
}
use travelmode.Daemon.{
  Setting, Effects, Handled, dispatch, handle_add_rule, handle_remove_rule, handle_set_paused,
}

-- The packet is TCP or UDP, and attribution finds a process that runs the executable.
pub record IsFrom (s : DaemonState) (p : Arrival) (exe : FilePath) : Type 0 where
  pub proto : Protocol
  pub port : ℕ
  pub remote_addr : IpAddr
  pub remote_port : ℕ
  pub parsed : parse_packet p.payload ≡ accepted (proto, port, remote_addr, remote_port)
  pub pid : ℕ
  pub name : Option Text
  pub owner : (attribute p.world s proto port).0 ≡ (some pid, name, some exe)

stored_rule :
    (e : Setting) (s : RuleStore) (input : RuleInput) (stored : Rule) (store : RuleStore)
    → input.ttl_secs ≡ none
    → Rules.add e.platform e.saving s input e.now ≡ some (stored, store)
    → stored ≡ new_rule input e.now none s.next_id
unfolding Rules.add expiry
stored_rule e s input stored store t h = ground arith

handle_add_rule-is_blocked :
    (e : Setting) (s s' : DaemonState) (fx : Effects) (input : RuleInput) (exe : FilePath) (t : ℕ)
    → input.action ≡ block
    → input.ttl_secs ≡ none
    → dispatch e s (add_rule input) ≡ some (ok, s', fx)
    → path_beq input.exe_path exe ≡ true
    → is_blocked s'.rules exe t ≡ true
unfolding dispatch handle_add_rule is_expired
handle_add_rule-is_blocked e s s' fx input exe t b n h q =
    elim (Option-cases (Rules.add e.platform e.saving s.rules input e.now)) [
      | inl f ↦ absurd (ground arith)
      | inr ((stored, store), f) ↦ ground (
        arith,
        stored_rule e s.rules input stored store n f,
        is_blocked-add e.platform e.saving s.rules store input e.now stored exe t f,
      )
    ]

-- Once a Block request without an expiry time is answered, every packet that is attributed to the
-- executable is dropped and counted while filtering is on.
pub dispatch-drops :
    (e : Setting) (s s' : DaemonState) (fx : Effects) (input : RuleInput) (p : Arrival)
    (exe : FilePath)
    → input.action ≡ block
    → input.ttl_secs ≡ none
    → dispatch e s (add_rule input) ≡ some (ok, s', fx)
    → s'.paused ≡ false
    → path_beq input.exe_path exe ≡ true
    → IsFrom s' p exe
    → outcome (decide e.addresses s' p) ≡ some (drop, add_u64 s'.blocked_count 1)
dispatch-drops e s s' fx input p exe b t h on q f = decide-IsForbidden e.addresses s' p (record {
  on = on;
  proto = f.proto;
  port = f.port;
  remote_addr = f.remote_addr;
  remote_port = f.remote_port;
  parsed = f.parsed;
  pid = f.pid;
  name = f.name;
  exe = exe;
  owner = f.owner;
  blocked = handle_add_rule-is_blocked e s s' fx input exe p.now b t h q;
})

stored_target :
    (e : Setting) (s : RuleStore) (input : RuleInput) (stored : Rule) (store : RuleStore)
    → Rules.add e.platform e.saving s input e.now ≡ some (stored, store)
    → (stored.action ≡ input.action) × (stored.exe_path ≡ input.exe_path)
unfolding Rules.add
stored_target e s input stored store h =
    elim (Option-cases (expiry e.platform input.ttl_secs e.now)) [
      | inl n ↦ absurd (ground arith)
      | inr (x, n) ↦ (ground arith, ground arith)
    ]

-- When a Block request is answered with `Ok`, the commands that cut a flow off have been run for
-- every tracked flow of the executable: `ss` for TCP, and `conntrack` where it is installed.
pub dispatch-IsCut :
    (e : Setting) (s s' : DaemonState) (fx : Effects) (input : RuleInput) (k : Text)
    (conn : ConnectionInfo)
    → input.action ≡ block
    → dispatch e s (add_rule input) ≡ some (ok, s', fx)
    → Map.get k s.connections ≡ some conn
    → owned_by input.exe_path conn ≡ true
    → IsCut e.addresses e.tools fx.commands conn
unfolding dispatch handle_add_rule
dispatch-IsCut e s s' fx input k conn b h g o =
    elim (Option-cases (Rules.add e.platform e.saving s.rules input e.now)) [
      | inl n ↦ absurd (ground arith)
      | inr ((stored, store), n) ↦
          let (action, target) = stored_target e s.rules input stored store n in
          let s'' : DaemonState = publish (rule_added stored) (record s { rules = store }) in
          let cut : IsCut e.addresses e.tools
              (kill_flows_for_exe e.addresses e.tools s'' stored.exe_path).0 conn =
            kill_flows_for_exe-IsCut e.addresses e.tools s'' stored.exe_path k conn g
              (rw target o) in
          let same : fx.commands ≡ (kill_flows_for_exe e.addresses e.tools s'' stored.exe_path).0 =
            ground (arith, action) in
          rw same cut
    ]

same_rules :
    {s s' : DaemonState} {a b : Response} {x y : Effects}
    → ◌≡◌ {A = Option Handled} (some (a, s, x)) (some (b, s', y))
    → IsValid s.rules
    → IsValid s'.rules
same_rules {s = s} {s' = s'} h v = let e : s.rules ≡ s'.rules = ground arith in subst IsValid e v

handle_add_rule-IsValid :
    (e : Setting) (s s' : DaemonState) (input : RuleInput) (response : Response) (fx : Effects)
    → s.rules.next_id + 1 < u64_mod
    → IsValid s.rules
    → handle_add_rule e s input ≡ some (response, s', fx)
    → IsValid s'.rules
unfolding handle_add_rule
handle_add_rule-IsValid e s s' input response fx n v h =
    elim (Option-cases (Rules.add e.platform e.saving s.rules input e.now)) [
      | inl f ↦ absurd (ground arith)
      | inr ((stored, store), f) ↦
          let same : store ≡ s'.rules = ground arith in
          subst IsValid same (
            subst (λ o. IsValid (store_after s.rules o)) f
              (add-IsValid e.platform e.saving s.rules input e.now n v))
    ]

handle_remove_rule-IsValid :
    (e : Setting) (s : DaemonState) (id : ℕ)
    → IsValid s.rules
    → IsValid (handle_remove_rule e s id).1.rules
unfolding handle_remove_rule
handle_remove_rule-IsValid e s id v =
    elim (Option-cases (Rules.remove e.platform e.saving s.rules id)) [
      | inl f ↦ rw (f, handle_remove_rule) v
      | inr ((rule, store), f) ↦
          let after : IsValid store =
            subst (λ o. IsValid (store_after s.rules o)) f
              (remove-IsValid e.platform e.saving s.rules id v) in
          rw (f, handle_remove_rule) after
    ]

-- While ids are not exhausted, no request breaks the invariant of the rules: ids are distinct and
-- below the next one, and no two rules have the same path and action.
pub dispatch-IsValid :
    (e : Setting) (s s' : DaemonState) (request : Request) (response : Response) (fx : Effects)
    → s.rules.next_id + 1 < u64_mod
    → IsValid s.rules
    → dispatch e s request ≡ some (response, s', fx)
    → IsValid s'.rules
unfolding dispatch handle_set_paused
dispatch-IsValid e s s' (add_rule input) response fx n v h =
    handle_add_rule-IsValid e s s' input response fx n v h
dispatch-IsValid e s s' (remove_rule id) response fx n v h =
    same_rules h (handle_remove_rule-IsValid e s id v)
dispatch-IsValid e s s' (set_paused paused) response fx n v h = same_rules h v
dispatch-IsValid e s s' ping response fx n v h = same_rules h v
dispatch-IsValid e s s' get_status response fx n v h = same_rules h v
dispatch-IsValid e s s' get_network response fx n v h = same_rules h v
dispatch-IsValid e s s' get_processes response fx n v h = same_rules h v
dispatch-IsValid e s s' get_connections response fx n v h = same_rules h v
dispatch-IsValid e s s' get_top response fx n v h = same_rules h v
dispatch-IsValid e s s' list_rules response fx n v h = same_rules h v
dispatch-IsValid e s s' subscribe response fx n v h = same_rules h v
