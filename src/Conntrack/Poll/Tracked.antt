-- ===== src/Conntrack/Poll/Tracked.antt =====
-- What a poll of crates/daemon/src/conntrack.rs leaves tracked.

use travelmode.Base.Map
use travelmode.Base.Map.{Map, get_congr, get-insert, get-remove, get-nil}
use travelmode.Base.{
  ℕ, ◌≡◌, refl, not, ◌&&◌, ◌||◌, List, [], ◌∷◌, none, Text, text_key, text_beq, any, retain, arith,
  Option-cases, inl, inr, if◌then◌else◌,
}
use travelmode.Types.{ConnectionInfo, connection_closed}
use travelmode.World.{World}
use travelmode.State.{DaemonState, publish, attribute}
use travelmode.Conntrack.{ParsedFlow}
use travelmode.Conntrack.Poll.{
  SeenFlows, close_flows, update_flow, new_info, open_flow, merge_flow, merge_flows, apply_seen,
}
use travelmode.Conntrack.Poll.Sync.{attribute_tables}

close_flows-get :
    (keys : List Text) (s : DaemonState) (k : Text)
    → Map.get k (close_flows keys s).connections
      ≡ (if any (λ j. text_beq j k) keys then none else Map.get k s.connections)
unfolding close_flows
close_flows-get [] s k = refl
close_flows-get (key ∷ keys) s k = ground (
  arith,
  close_flows-get keys
      (publish (connection_closed key) (record s { connections = Map.remove key s.connections })) k,
  get-remove key k s.connections,
)

merge_flow-contains_key :
    (w : World) (now : ℕ) (key : Text) (flow : ParsedFlow) (s : DaemonState) (k : Text)
    → Map.contains_key k (merge_flow w now key flow s).connections
      ≡ (text_beq key k || Map.contains_key k s.connections)
unfolding merge_flow update_flow open_flow Map.contains_key
merge_flow-contains_key w now key flow s k = elim (Option-cases (Map.get key s.connections)) [
  | inl e ↦
      let (es, cs) = attribute_tables w s flow.proto flow.local_port in
      let info : ConnectionInfo =
        new_info now key flow (attribute w s flow.proto flow.local_port).0 in
      ground (arith, cs, get-insert key k info s.connections)
  | inr (c, e) ↦
      let updated : ConnectionInfo = record c {
        bytes_sent = flow.sent;
        bytes_recv = flow.recv;
        last_seen = now;
      } in
      ground (arith, get-insert key k updated s.connections, get_congr key k s.connections)
]

merge_flows-contains_key :
    (w : World) (now : ℕ) (seen : SeenFlows) (s : DaemonState) (k : Text)
    → Map.contains_key k (merge_flows w now seen s).connections
      ≡ (Map.contains_key k seen || Map.contains_key k s.connections)
unfolding merge_flows Map.contains_key Map.get
merge_flows-contains_key w now [] s k = refl
merge_flows-contains_key w now ((key, flow) ∷ seen) s k = ground (
  arith,
  merge_flows-contains_key w now seen (merge_flow w now key flow s) k,
  merge_flow-contains_key w now key flow s k,
)

any-gone :
    (seen : SeenFlows) (m : Map Text ConnectionInfo) (k : Text)
    → any (λ j. text_beq j k) (retain (λ j. not (Map.contains_key j seen)) (Map.keys m))
      ≡ (Map.contains_key k m && not (Map.contains_key k seen))
unfolding Map.keys Map.contains_key Map.get
any-gone seen [] k = refl
any-gone seen ((j, c) ∷ m) k = ground (arith, any-gone seen m k, get_congr j k seen)

-- When the flows seen in the table have been applied, exactly their keys are tracked.
pub apply_seen-contains_key :
    (w : World) (now : ℕ) (seen : SeenFlows) (s : DaemonState) (k : Text)
    → Map.contains_key k (apply_seen w now seen s).connections ≡ Map.contains_key k seen
unfolding apply_seen Map.contains_key
apply_seen-contains_key w now seen s k =
    let gone : List Text = retain (λ k. not (Map.contains_key k seen)) (Map.keys s.connections) in
    ground (
      arith,
      merge_flows-contains_key w now seen (close_flows gone s) k,
      close_flows-get gone s k,
      any-gone seen s.connections k,
    )
