-- ===== src/Conntrack/Poll.antt =====
-- `poll_once` of crates/daemon/src/conntrack.rs. The write lock on the connections is held
-- throughout; the table and /proc are read from one `World`, and `now` is the poll's clock.
pub mod Sync
pub mod Tracked
use travelmode.Base.Map
use travelmode.Base.Map.{Map}
use travelmode.Base.Parsing.{lines}
use travelmode.Base.{
  ℕ, Bool, true, false, not, ◌&&◌, ◌||◌, List, [], ◌∷◌, max, Option, none, some, Text, text,
  text_key, nat_beq, retain, if◌then◌else◌, FilePath,
}
use travelmode.Types.{
  Protocol, ConnectionInfo, Event, connection_opened, connection_updated, connection_closed,
}
use travelmode.World.{World}
use travelmode.State.{DaemonState, publish, attribute, Attribution}
use travelmode.Conntrack.{AddrText, ParsedFlow, parse_line}

abbrev pub SeenFlows : Type 0
SeenFlows = Map Text ParsedFlow

-- Duplicate lines of one flow keep the larger counters.
unfoldable pub add_seen : ParsedFlow → SeenFlows → SeenFlows
add_seen flow seen = elim (Map.get flow.key seen) [
  | none ↦ Map.insert flow.key flow seen
  | some f ↦
      Map.insert flow.key (record f { sent = max f.sent flow.sent; recv = max f.recv flow.recv })
        seen
]

unfoldable pub collect_seen : AddrText → List Text → SeenFlows → SeenFlows
unfolding add_seen
collect_seen a [] seen = seen
collect_seen a (line ∷ rest) seen =
    collect_seen a rest (elim (parse_line a line) [ none ↦ seen | some flow ↦ add_seen flow seen ])

unfoldable pub close_flows : List Text → DaemonState → DaemonState
close_flows [] s = s
close_flows (key ∷ keys) s =
    close_flows keys
      (publish (connection_closed key) (record s { connections = Map.remove key s.connections }))

unfoldable pub update_flow : ℕ → Text → ParsedFlow → ConnectionInfo → DaemonState → DaemonState
update_flow now key flow existing s =
    let updated : ConnectionInfo = record existing {
      bytes_sent = flow.sent;
      bytes_recv = flow.recv;
      last_seen = now;
    } in
    if not (nat_beq existing.bytes_sent flow.sent) || not (nat_beq existing.bytes_recv flow.recv)
    then publish (connection_updated updated)
        (record s { connections = Map.insert key updated s.connections })
    else s

abbrev pub new_info : ℕ → Text → ParsedFlow → Attribution → ConnectionInfo
new_info now key flow (pid, process_name, exe) = record {
  key = key;
  protocol = flow.proto;
  local_addr = flow.local;
  local_port = flow.local_port;
  remote_addr = flow.remote;
  remote_port = flow.remote_port;
  bytes_sent = flow.sent;
  bytes_recv = flow.recv;
  pid = pid;
  process_name = process_name;
  exe = exe;
  started = now;
  last_seen = now;
}

unfoldable pub open_flow : World → ℕ → Text → ParsedFlow → DaemonState → DaemonState
open_flow w now key flow s =
    let (owner, s') = attribute w s flow.proto flow.local_port in
    let info : ConnectionInfo = new_info now key flow owner in
    publish (connection_opened info)
      (record s' { connections = Map.insert key info s'.connections })

unfoldable pub merge_flow : World → ℕ → Text → ParsedFlow → DaemonState → DaemonState
unfolding update_flow open_flow
merge_flow w now key flow s = elim (Map.get key s.connections) [
  | some existing ↦ update_flow now key flow existing s
  | none ↦ open_flow w now key flow s
]

unfoldable pub merge_flows : World → ℕ → SeenFlows → DaemonState → DaemonState
unfolding merge_flow
merge_flows w now [] s = s
merge_flows w now ((key, flow) ∷ seen) s = merge_flows w now seen (merge_flow w now key flow s)

-- The part after the table has been read.
unfoldable pub apply_seen : World → ℕ → SeenFlows → DaemonState → DaemonState
unfolding close_flows merge_flows
apply_seen w now seen s =
    let closed = retain (λ k. not (Map.contains_key k seen)) (Map.keys s.connections) in
    merge_flows w now seen (close_flows closed s)

unfoldable pub poll_once : AddrText → World → ℕ → DaemonState → DaemonState
unfolding collect_seen apply_seen
poll_once a w now s = elim (w.read_file (text "/proc/net/nf_conntrack")) [
  | none ↦ s
  | some t ↦ apply_seen w now (collect_seen a (lines t) []) s
]
