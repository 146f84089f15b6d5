-- ===== src/Conntrack/Poll/Sync.antt =====
-- What a poll of crates/daemon/src/conntrack.rs tells subscribers.

use travelmode.Base.Map
use travelmode.Base.Map.{Map, get_congr, get-insert, get-remove, get-nil}
use travelmode.Base.Parsing.{lines}
use travelmode.Base.{
  ℕ, ◌≡◌, refl, Bool, true, not, ◌||◌, List, [], ◌∷◌, ◌++◌, some, Text, text, text_key, text_beq,
  text_beq→≡, nat_beq, retain, arith, Option-cases, Bool-cases, inl, inr,
}
use travelmode.Types.{
  Protocol, ConnectionInfo, Event, connection_opened, connection_updated, connection_closed,
  process_started, process_exited, rule_added, rule_removed, paused_changed, network_changed,
}
use travelmode.World.{World}
use travelmode.Attrib.{lookup}
use travelmode.State.Events.{fold_events, fold_events-append}
use travelmode.State.{DaemonState, publish, attribute}
use travelmode.Conntrack.{AddrText, ParsedFlow}
use travelmode.Conntrack.Poll.{
  SeenFlows, collect_seen, close_flows, update_flow, new_info, open_flow, merge_flow, merge_flows,
  apply_seen, poll_once,
}

-- A subscriber's own table of connections, kept from the events alone.
abbrev pub heard : Event → Map Text ConnectionInfo → Map Text ConnectionInfo
heard (connection_opened c) m = Map.insert c.key c m
heard (connection_updated c) m = Map.insert c.key c m
heard (connection_closed k) m = Map.remove k m
heard (process_started p) m = m
heard (process_exited p) m = m
heard (rule_added r) m = m
heard (rule_removed i) m = m
heard (paused_changed b) m = m
heard (network_changed n) m = m

unfoldable pub mirror : List Event → Map Text ConnectionInfo → Map Text ConnectionInfo
unfolding fold_events
mirror es m = fold_events heard es m

mirror-append :
    (es : List Event) (e : Event) (m : Map Text ConnectionInfo)
    → mirror (es ++ e ∷ []) m ≡ heard e (mirror es m)
unfolding mirror
mirror-append es e m = fold_events-append heard es e m

-- The events have told everything about the connections, and each connection is tracked under its
-- own key.
pub record IsInSync (events : List Event) (m : Map Text ConnectionInfo) : Type 0 where
  pub mirrored : (k : Text) → Map.get k (mirror events []) ≡ Map.get k m
  pub keyed : (k : Text) (c : ConnectionInfo) → Map.get k m ≡ some c → text_beq c.key k ≡ true

abbrev pub InSync : DaemonState → Type 0
InSync s = IsInSync s.events s.connections

closed-IsInSync :
    (es : List Event) (m : Map Text ConnectionInfo) (key : Text)
    → IsInSync es m
    → IsInSync (es ++ connection_closed key ∷ []) (Map.remove key m)
closed-IsInSync es m key h = record {
  mirrored = λ k.
      rw (mirror-append es (connection_closed key) [])
        (ground (arith, get-remove key k (mirror es []), get-remove key k m, h.mirrored k));
  keyed = λ k c g. ground (arith, get-remove key k m, h.keyed k c);
}

told-IsInSync :
    (es : List Event) (m : Map Text ConnectionInfo) (e : Event) (key : Text) (c : ConnectionInfo)
    → c.key ≡ key
    → ((n : Map Text ConnectionInfo) → heard e n ≡ Map.insert c.key c n)
    → IsInSync es m
    → IsInSync (es ++ e ∷ []) (Map.insert key c m)
told-IsInSync es m e key c q t h = record {
  mirrored = λ k.
      rw (mirror-append es e [], t (mirror es []), q)
        (ground (arith, get-insert key k c (mirror es []), get-insert key k c m, h.mirrored k));
  keyed = λ k d g. ground (arith, get-insert key k c m, h.keyed k d, q);
}

close_flows-InSync : (keys : List Text) (s : DaemonState) → InSync s → InSync (close_flows keys s)
unfolding close_flows
close_flows-InSync [] s h = h
close_flows-InSync (key ∷ keys) s h =
    close_flows-InSync keys
      (publish (connection_closed key) (record s { connections = Map.remove key s.connections }))
      (closed-IsInSync s.events s.connections key h)

update_flow-InSync :
    (now : ℕ) (key : Text) (flow : ParsedFlow) (c : ConnectionInfo) (s : DaemonState)
    → Map.get key s.connections ≡ some c
    → InSync s
    → InSync (update_flow now key flow c s)
unfolding update_flow
update_flow-InSync now key flow c s g h =
    let updated : ConnectionInfo = record c {
      bytes_sent = flow.sent;
      bytes_recv = flow.recv;
      last_seen = now;
    } in
    let changed : Bool =
      not (nat_beq c.bytes_sent flow.sent) || not (nat_beq c.bytes_recv flow.recv) in
    elim (Bool-cases changed) [
      | inl e ↦
          rw (e, update_flow)
            (told-IsInSync s.events s.connections (connection_updated updated) key updated
              (text_beq→≡ c.key key (h.keyed key c g)) (λ n. refl) h)
      | inr e ↦ rw (e, update_flow) h
    ]

pub attribute_tables :
    (w : World) (s : DaemonState) (proto : Protocol) (port : ℕ)
    → ((attribute w s proto port).1.events ≡ s.events)
      × ((attribute w s proto port).1.connections ≡ s.connections)
unfolding attribute
attribute_tables w s proto port = elim (Option-cases (lookup w s.attrib proto port).0) [
  | inl e ↦ (ground arith, ground arith)
  | inr (pid, e) ↦ (ground arith, ground arith)
]

open_flow-InSync :
    (w : World) (now : ℕ) (key : Text) (flow : ParsedFlow) (s : DaemonState)
    → InSync s
    → InSync (open_flow w now key flow s)
unfolding open_flow
open_flow-InSync w now key flow s h =
    let (es, cs) = attribute_tables w s flow.proto flow.local_port in
    let info : ConnectionInfo =
      new_info now key flow (attribute w s flow.proto flow.local_port).0 in
    rw (es, cs)
      (told-IsInSync s.events s.connections (connection_opened info) key info refl (λ n. refl) h)

merge_flow-InSync :
    (w : World) (now : ℕ) (key : Text) (flow : ParsedFlow) (s : DaemonState)
    → InSync s
    → InSync (merge_flow w now key flow s)
unfolding merge_flow
merge_flow-InSync w now key flow s h = elim (Option-cases (Map.get key s.connections)) [
  | inl e ↦ rw (e, merge_flow) (open_flow-InSync w now key flow s h)
  | inr (c, e) ↦ rw (e, merge_flow) (update_flow-InSync now key flow c s e h)
]

merge_flows-InSync :
    (w : World) (now : ℕ) (seen : SeenFlows) (s : DaemonState)
    → InSync s
    → InSync (merge_flows w now seen s)
unfolding merge_flows
merge_flows-InSync w now [] s h = h
merge_flows-InSync w now ((key, flow) ∷ seen) s h =
    merge_flows-InSync w now seen (merge_flow w now key flow s)
      (merge_flow-InSync w now key flow s h)

apply_seen-InSync :
    (w : World) (now : ℕ) (seen : SeenFlows) (s : DaemonState)
    → InSync s
    → InSync (apply_seen w now seen s)
unfolding apply_seen
apply_seen-InSync w now seen s h =
    let gone : List Text = retain (λ k. not (Map.contains_key k seen)) (Map.keys s.connections) in
    merge_flows-InSync w now seen (close_flows gone s) (close_flows-InSync gone s h)

-- A poll keeps subscribers in step: if before it, for every key, who follows every event from the
-- start has the connection that the daemon tracks, each under its own key, then so it is after
-- it.
pub poll_once-InSync :
    (a : AddrText) (w : World) (now : ℕ) (s : DaemonState) → InSync s → InSync (poll_once a w now s)
unfolding poll_once
poll_once-InSync a w now s h = elim (Option-cases (w.read_file (text "/proc/net/nf_conntrack"))) [
  | inl e ↦ rw (e, poll_once) h
  | inr (t, e) ↦ rw (e, poll_once) (apply_seen-InSync w now (collect_seen a (lines t) []) s h)
]
