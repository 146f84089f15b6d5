-- ===== src/Firewall/Verdict.antt =====
-- The verdict on one queued packet: `decide` of crates/daemon/src/firewall.rs. A packet comes with
-- what /proc and the clocks hold when it is received.
pub mod Exact
use travelmode.Base.Map
use travelmode.Base.Parsing.{show_ℕ}
use travelmode.Base.{
  ℕ, Bool, true, false, List, [], ◌∷◌, ◌++◌, Option, none, some, Text, FilePath, add_u64,
  if◌then◌else◌,
}
use travelmode.Types.{Protocol, IpAddr}
use travelmode.World.{World}
use travelmode.Conntrack.{AddrText}
use travelmode.Firewall.Packet.{Parsed, panicked, rejected, accepted, parse_packet}
use travelmode.Firewall.Throttle.{should_log}
use travelmode.Rules.{is_blocked}
use travelmode.State.{DaemonState, is_paused, attribute, Attribution}

pub data Verdict : Type 0 where
  accept drop : Verdict

-- A packet, and what the machine holds when it is decided: the wall clock and the `Instant`.
pub record Arrival : Type 0 where
  pub payload : List ℕ
  pub world : World
  pub now : ℕ
  pub instant : ℕ

abbrev pub Packet : Type 0
Packet = Protocol × ℕ × IpAddr × ℕ

-- `format!("{remote_addr}:{remote_port}")`
abbrev pub destination : AddrText → IpAddr → ℕ → Text
destination a remote_addr remote_port = a.show remote_addr ++ b':' ∷ show_ℕ remote_port

-- A packet of a known process and executable.
unfoldable pub judge : Arrival → FilePath → Text → DaemonState → Verdict × DaemonState
judge p exe dst s =
    if is_blocked s.rules exe p.now
    then (
      drop,
      record s {
        blocked_count = add_u64 s.blocked_count 1;
        block_log = (should_log s.block_log (exe, dst) p.instant).1;
      },
    )
    else (accept, s)

unfoldable pub judge_owner : Arrival → Text → Attribution × DaemonState → Verdict × DaemonState
unfolding judge
judge_owner p dst ((some pid, name, some exe), s) = judge p exe dst s
judge_owner p dst ((some pid, name, none), s) = (accept, s)
judge_owner p dst ((none, name, exe), s) = (accept, s)

unfoldable pub judge_packet : AddrText → Arrival → Packet → DaemonState → Verdict × DaemonState
unfolding judge_owner
judge_packet a p (proto, local_port, remote_addr, remote_port) s =
    judge_owner p (destination a remote_addr remote_port) (attribute p.world s proto local_port)

-- `none` is a panic of the parser.
unfoldable pub answer :
    AddrText → DaemonState → Arrival → Parsed Packet → Option (Verdict × DaemonState)
unfolding judge_packet
answer a s p panicked = none
answer a s p rejected = some (accept, s)
answer a s p (accepted packet) = some (judge_packet a p packet s)

unfoldable pub decide : AddrText → DaemonState → Arrival → Option (Verdict × DaemonState)
unfolding answer is_paused
decide a s p = if is_paused s then some (accept, s) else answer a s p (parse_packet p.payload)
