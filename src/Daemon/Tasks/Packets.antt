-- ===== src/Daemon/Tasks/Packets.antt =====
-- A packet leaves the tables alone: crates/daemon/src/firewall.rs.
use travelmode.Base.{
  add_u64, if◌then◌else◌, FilePath, refl, Bool, true, false, none, some, Text, Bool-cases, inl, inr,
}
use travelmode.State.{is_paused, Attribution, DaemonState, attribute}
use travelmode.Conntrack.{AddrText}
use travelmode.Rules.{is_blocked}
use travelmode.Firewall.Throttle.{should_log}
use travelmode.Firewall.Packet.{Parsed, panicked, rejected, accepted, parse_packet}
use travelmode.Firewall.Verdict.{
  accept, Arrival, Packet, destination, judge, judge_owner, judge_packet, answer, decide,
}
use travelmode.Daemon.Tasks.{after_packet}
use travelmode.Daemon.Tasks.Kept.{Listener, Kept, Kept-refl, Kept-trans, alike-Kept, attribute-Kept}

module _ {A F : Type 0} (l : Listener A F) where
  judge-Kept :
      (p : Arrival) (exe : FilePath) (dst : Text) (s : DaemonState) → Kept l s (judge p exe dst s).1
  unfolding judge
  judge-Kept p exe dst s = elim (Bool-cases (is_blocked s.rules exe p.now)) [
    | inl e ↦
        rw (e, judge)
          (alike-Kept l s
            (record s {
              blocked_count = add_u64 s.blocked_count 1;
              block_log = (should_log s.block_log (exe, dst) p.instant).1;
            })
            refl refl)
    | inr e ↦ rw (e, judge) (Kept-refl l s)
  ]

  judge_owner-Kept :
      (p : Arrival) (dst : Text) (o : Attribution) (s : DaemonState)
      → Kept l s (judge_owner p dst (o, s)).1
  unfolding judge_owner
  judge_owner-Kept p dst (some pid, name, some exe) s = judge-Kept p exe dst s
  judge_owner-Kept p dst (some pid, name, none) s = Kept-refl l s
  judge_owner-Kept p dst (none, name, exe) s = Kept-refl l s

  answer-Kept :
      (a : AddrText) (s : DaemonState) (p : Arrival) (r : Parsed Packet)
      → Kept l s (after_packet s (answer a s p r))
  unfolding answer judge_packet
  answer-Kept a s p panicked = Kept-refl l s
  answer-Kept a s p rejected = Kept-refl l s
  answer-Kept a s p (accepted (proto, port, addr, remote_port)) =
      let s' : DaemonState = (attribute p.world s proto port).1 in
      let owner : Attribution = (attribute p.world s proto port).0 in
      let dst : Text = destination a addr remote_port in
      Kept-trans l s s' (judge_owner p dst (owner, s')).1 (attribute-Kept l p.world s proto port)
        (judge_owner-Kept p dst owner s')

  pub decide-Kept :
      (a : AddrText) (s : DaemonState) (p : Arrival) → Kept l s (after_packet s (decide a s p))
  unfolding decide is_paused
  decide-Kept a s p = unless_paused s.paused
    where
      unless_paused :
          (paused : Bool)
          → Kept l s (
              after_packet s
                (if paused then some (accept, s) else answer a s p (parse_packet p.payload)))
      unless_paused true = Kept-refl l s
      unless_paused false = answer-Kept a s p (parse_packet p.payload)
