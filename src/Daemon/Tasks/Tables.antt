-- ===== src/Daemon/Tasks/Tables.antt =====
-- A poll of crates/daemon/src/conntrack.rs leaves all but the connections alone, and a scan of
-- crates/daemon/src/procs.rs all but the processes.
use travelmode.Base.Map
use travelmode.Base.Map.{Map}
use travelmode.Base.{
  text, text_key, nat_key, not, ◌||◌, nat_beq, retain, ℕ, ◌≡◌, refl, Bool, List, [], ◌∷◌, Option,
  none, some, Text, Option-cases, Bool-cases, inl, inr,
}
use travelmode.Types.{
  Event, ProcessInfo, ConnectionInfo, connection_opened, connection_updated, connection_closed,
  process_started, process_exited,
}
use travelmode.Base.Parsing.{lines}
use travelmode.World.{World}
use travelmode.Rules.{RuleStore}
use travelmode.State.{DaemonState, publish, attribute}
use travelmode.Conntrack.{AddrText, ParsedFlow}
use travelmode.Conntrack.Poll.{
  SeenFlows, poll_once, apply_seen, close_flows, merge_flow, merge_flows, update_flow, open_flow,
  new_info, collect_seen,
}
use travelmode.Procs.{UserCache}
use travelmode.Procs.Scan.{scan_once, announce_started, announce_exited, collect}
use travelmode.Daemon.Tasks.Kept.{
  Listener, Kept, Kept-refl, Kept-trans, publish-Kept, alike-Kept, attribute-Kept,
}

-- The listener does not see the connections, nor the events on them.
pub record IgnoresFlows {A F : Type 0} (l : Listener A F) : Type 0 where
  pub opened : (c : ConnectionInfo) (m : A) → l.heard (connection_opened c) m ≡ m
  pub updated : (c : ConnectionInfo) (m : A) → l.heard (connection_updated c) m ≡ m
  pub closed : (k : Text) (m : A) → l.heard (connection_closed k) m ≡ m
  pub unseen :
      (r : RuleStore) (p : Map ℕ ProcessInfo) (c d : Map Text ConnectionInfo) (h : Option ℕ)
      → l.view r p c h ≡ l.view r p d h

pub record IgnoresProcesses {A F : Type 0} (l : Listener A F) : Type 0 where
  pub started : (p : ProcessInfo) (m : A) → l.heard (process_started p) m ≡ m
  pub exited : (pid : ℕ) (m : A) → l.heard (process_exited pid) m ≡ m
  pub unseen :
      (r : RuleStore) (p q : Map ℕ ProcessInfo) (c : Map Text ConnectionInfo) (h : Option ℕ)
      → l.view r p c h ≡ l.view r q c h

module _ {A F : Type 0} (l : Listener A F) (i : IgnoresFlows l) where
  told-Kept :
      (e : Event) (conns : Map Text ConnectionInfo) (s : DaemonState)
      → ((m : A) → l.heard e m ≡ m)
      → Kept l s (publish e (record s { connections = conns }))
  told-Kept e conns s h =
      publish-Kept l e s (record s { connections = conns }) h refl
        (i.unseen s.rules s.processes conns s.connections s.firewall)

  close_flows-Kept : (keys : List Text) (s : DaemonState) → Kept l s (close_flows keys s)
  unfolding close_flows
  close_flows-Kept [] s = Kept-refl l s
  close_flows-Kept (key ∷ keys) s =
      let s' : DaemonState =
        publish (connection_closed key) (record s { connections = Map.remove key s.connections }) in
      Kept-trans l s s' (close_flows keys s')
        (told-Kept (connection_closed key) (Map.remove key s.connections) s (i.closed key))
        (close_flows-Kept keys s')

  update_flow-Kept :
      (now : ℕ) (key : Text) (flow : ParsedFlow) (c : ConnectionInfo) (s : DaemonState)
      → Kept l s (update_flow now key flow c s)
  unfolding update_flow
  update_flow-Kept now key flow c s =
      let updated : ConnectionInfo = record c {
        bytes_sent = flow.sent;
        bytes_recv = flow.recv;
        last_seen = now;
      } in
      let changed : Bool =
        not (nat_beq c.bytes_sent flow.sent) || not (nat_beq c.bytes_recv flow.recv) in
      elim (Bool-cases changed) [
        | inl e ↦
            rw (e, update_flow)
              (told-Kept (connection_updated updated) (Map.insert key updated s.connections) s
                (i.updated updated))
        | inr e ↦ rw (e, update_flow) (Kept-refl l s)
      ]

  open_flow-Kept :
      (w : World) (now : ℕ) (key : Text) (flow : ParsedFlow) (s : DaemonState)
      → Kept l s (open_flow w now key flow s)
  unfolding open_flow
  open_flow-Kept w now key flow s =
      let s' : DaemonState = (attribute w s flow.proto flow.local_port).1 in
      let info : ConnectionInfo =
        new_info now key flow (attribute w s flow.proto flow.local_port).0 in
      Kept-trans l s s' (open_flow w now key flow s)
        (attribute-Kept l w s flow.proto flow.local_port)
        (told-Kept (connection_opened info) (Map.insert key info s'.connections) s' (i.opened info))

  merge_flows-Kept :
      (w : World) (now : ℕ) (seen : SeenFlows) (s : DaemonState)
      → Kept l s (merge_flows w now seen s)
  unfolding merge_flows merge_flow
  merge_flows-Kept w now [] s = Kept-refl l s
  merge_flows-Kept w now ((key, flow) ∷ seen) s =
      Kept-trans l s (merge_flow w now key flow s)
        (merge_flows w now seen (merge_flow w now key flow s))
        (merged (Map.get key s.connections) refl)
        (merge_flows-Kept w now seen (merge_flow w now key flow s))
    where
      merged :
          (o : Option ConnectionInfo)
          → Map.get key s.connections ≡ o
          → Kept l s (merge_flow w now key flow s)
      merged none e = rw (e, merge_flow) (open_flow-Kept w now key flow s)
      merged (some c) e = rw (e, merge_flow) (update_flow-Kept now key flow c s)

  pub poll_once-Kept :
      (a : AddrText) (w : World) (now : ℕ) (s : DaemonState) → Kept l s (poll_once a w now s)
  unfolding poll_once apply_seen
  poll_once-Kept a w now s = elim (Option-cases (w.read_file (text "/proc/net/nf_conntrack"))) [
    | inl e ↦ rw (e, poll_once) (Kept-refl l s)
    | inr (t, e) ↦
        let seen : SeenFlows = collect_seen a (lines t) [] in
        let gone : List Text =
          retain (λ k. not (Map.contains_key k seen)) (Map.keys s.connections) in
        rw (e, poll_once)
          (Kept-trans l s (close_flows gone s) (merge_flows w now seen (close_flows gone s))
            (close_flows-Kept gone s) (merge_flows-Kept w now seen (close_flows gone s)))
  ]

module _ {A F : Type 0} (l : Listener A F) (i : IgnoresProcesses l) where
  announce_started-Kept :
      (current : Map ℕ ProcessInfo) (s : DaemonState) → Kept l s (announce_started current s)
  unfolding announce_started
  announce_started-Kept [] s = Kept-refl l s
  announce_started-Kept ((pid, p) ∷ current) s =
      elim (Bool-cases (Map.contains_key pid s.processes)) [
        | inl e ↦ rw e (announce_started-Kept current s)
        | inr e ↦
            let s' : DaemonState = publish (process_started p) s in
            rw e (
              Kept-trans l s s' (announce_started current s')
                (publish-Kept l (process_started p) s s (i.started p) refl refl)
                (announce_started-Kept current s'))
      ]

  announce_exited-Kept :
      (pids : List ℕ) (current : Map ℕ ProcessInfo) (s : DaemonState)
      → Kept l s (announce_exited pids current s)
  unfolding announce_exited
  announce_exited-Kept [] current s = Kept-refl l s
  announce_exited-Kept (pid ∷ pids) current s = elim (Bool-cases (Map.contains_key pid current)) [
    | inl e ↦ rw e (announce_exited-Kept pids current s)
    | inr e ↦
        let s' : DaemonState = publish (process_exited pid) s in
        rw e (
          Kept-trans l s s' (announce_exited pids current s')
            (publish-Kept l (process_exited pid) s s (i.exited pid) refl refl)
            (announce_exited-Kept pids current s'))
  ]

  pub scan_once-Kept :
      (w : World) (users : UserCache) (s : DaemonState) → Kept l s (scan_once w users s).0
  unfolding scan_once
  scan_once-Kept w users s = elim (Option-cases w.all_processes) [
    | inl e ↦ rw (e, scan_once) (Kept-refl l s)
    | inr (procs, e) ↦
        let current : Map ℕ ProcessInfo = (collect w procs users []).0 in
        let s' : DaemonState = announce_started current s in
        let t : DaemonState = announce_exited (Map.keys s.processes) current s' in
        let h : Kept l s t =
          Kept-trans l s s' t (announce_started-Kept current s)
            (announce_exited-Kept (Map.keys s.processes) current s') in
        let u : DaemonState = record t { processes = current } in
        rw (e, scan_once)
          (Kept-trans l s t u h
            (alike-Kept l t u refl (i.unseen t.rules current t.processes t.connections t.firewall)))
  ]
