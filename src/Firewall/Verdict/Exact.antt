-- ===== src/Firewall/Verdict/Exact.antt =====
-- When `decide` of crates/daemon/src/firewall.rs drops a packet.
use travelmode.Base.{
  ℕ, ◌≡◌, ◌≢◌, refl, true, false, Option, none, some, Text, FilePath, arith, Option-cases, inl, inr,
  Bool-cases, add_u64,
}
use travelmode.Types.{Protocol, IpAddr}
use travelmode.Conntrack.{AddrText}
use travelmode.Rules.{is_blocked}
use travelmode.Firewall.Packet.{Parsed, panicked, rejected, accepted, parse_packet}
use travelmode.Firewall.Packet.Total.{parse_packet_total}
use travelmode.Attrib.{lookup}
use travelmode.State.{DaemonState, attribute, Attribution}
use travelmode.Firewall.Verdict.{
  Verdict, drop, Arrival, decide, judge, judge_owner, judge_packet, answer, destination,
}

-- The packet is one the rules forbid: filtering is on, it is a TCP or UDP packet, its socket belongs
-- to a process with a known executable, and a rule in force blocks that executable.
pub record IsForbidden (s : DaemonState) (p : Arrival) : Type 0 where
  pub on : s.paused ≡ false
  pub proto : Protocol
  pub port : ℕ
  pub remote_addr : IpAddr
  pub remote_port : ℕ
  pub parsed : parse_packet p.payload ≡ accepted (proto, port, remote_addr, remote_port)
  pub pid : ℕ
  pub name : Option Text
  pub exe : FilePath
  pub owner : (attribute p.world s proto port).0 ≡ (some pid, name, some exe)
  pub blocked : is_blocked s.rules exe p.now ≡ true

-- Attribution refreshes its socket table and changes nothing else.
attribute_rules :
    (s : DaemonState) (p : Arrival) (proto : Protocol) (port : ℕ)
    → (attribute p.world s proto port).1.rules ≡ s.rules
unfolding attribute
attribute_rules s p proto port = elim (Option-cases (lookup p.world s.attrib proto port).0) [
  | inl e ↦ ground arith
  | inr (pid, e) ↦ ground arith
]

attribute_count :
    (s : DaemonState) (p : Arrival) (proto : Protocol) (port : ℕ)
    → (attribute p.world s proto port).1.blocked_count ≡ s.blocked_count
unfolding attribute
attribute_count s p proto port = elim (Option-cases (lookup p.world s.attrib proto port).0) [
  | inl e ↦ ground arith
  | inr (pid, e) ↦ ground arith
]

-- What a drop says of the owner that attribution found.
record IsBlockedOwner (r : Attribution × DaemonState) (now : ℕ) : Type 0 where
  pid : ℕ
  name : Option Text
  exe : FilePath
  owner : r.0 ≡ (some pid, name, some exe)
  blocked : is_blocked r.1.rules exe now ≡ true

judge_owner-drop :
    (p : Arrival) (dst : Text) (r : Attribution × DaemonState) (s' : DaemonState)
    → judge_owner p dst r ≡ (drop, s')
    → IsBlockedOwner r p.now
unfolding judge_owner judge
judge_owner-drop p dst ((none, name, exe), s) s' h = absurd (ground arith)
judge_owner-drop p dst ((some pid, name, none), s) s' h = absurd (ground arith)
judge_owner-drop p dst ((some pid, name, some exe), s) s' h = record {
  pid = pid;
  name = name;
  exe = exe;
  owner = refl;
  blocked = ground arith;
}

answer-drop :
    (a : AddrText) (s s' : DaemonState) (p : Arrival) (r : Parsed (Protocol × ℕ × IpAddr × ℕ))
    → s.paused ≡ false
    → parse_packet p.payload ≡ r
    → answer a s p r ≡ some (drop, s')
    → IsForbidden s p
unfolding answer judge_packet
answer-drop a s s' p panicked on e h = absurd (ground arith)
answer-drop a s s' p rejected on e h = absurd (ground arith)
answer-drop a s s' p (accepted (proto, port, addr, rport)) on e h =
    let f : IsBlockedOwner (attribute p.world s proto port) p.now =
      judge_owner-drop p (destination a addr rport) (attribute p.world s proto port) s'
        (ground arith) in
    record {
      on = on;
      proto = proto;
      port = port;
      remote_addr = addr;
      remote_port = rport;
      parsed = e;
      pid = f.pid;
      name = f.name;
      exe = f.exe;
      owner = f.owner;
      blocked = ground (arith, attribute_rules s p proto port, f.blocked);
    }

-- A packet is dropped only when filtering is on, it is TCP or UDP, attribution finds its process
-- and executable, and a rule in force blocks that executable.
pub decide-drop :
    (a : AddrText) (s s' : DaemonState) (p : Arrival)
    → decide a s p ≡ some (drop, s')
    → IsForbidden s p
unfolding decide
decide-drop a s s' p h = elim (Bool-cases s.paused) [
  | inl e ↦ absurd (ground arith)
  | inr e ↦ answer-drop a s s' p (parse_packet p.payload) e refl (ground arith)
]

-- The verdict and the count of blocked packets.
abbrev pub outcome : Option (Verdict × DaemonState) → Option (Verdict × ℕ)
outcome none = none
outcome (some (v, s)) = some (v, s.blocked_count)

-- When filtering is on and a packet is TCP or UDP, attributed to a process and its executable,
-- and that executable is blocked, then the packet is dropped and the count goes up by one, modulo
-- 2^64.
pub decide-IsForbidden :
    (a : AddrText) (s : DaemonState) (p : Arrival)
    → IsForbidden s p
    → outcome (decide a s p) ≡ some (drop, add_u64 s.blocked_count 1)
unfolding decide answer judge_packet judge_owner judge
decide-IsForbidden a s p f = ground (
  arith,
  f.on,
  f.parsed,
  f.owner,
  f.blocked,
  attribute_rules s p f.proto f.port,
  attribute_count s p f.proto f.port,
)

answer_total :
    (a : AddrText) (s : DaemonState) (p : Arrival) (r : Parsed (Protocol × ℕ × IpAddr × ℕ))
    → r ≢ panicked
    → answer a s p r ≢ none
unfolding answer
answer_total a s p panicked h e = h refl
answer_total a s p rejected h e = ground arith
answer_total a s p (accepted packet) h e = ground arith

-- No packet makes the decision panic.
pub decide_total : (a : AddrText) (s : DaemonState) (p : Arrival) → decide a s p ≢ none
unfolding decide
decide_total a s p e = elim (Bool-cases s.paused) [
  | inl t ↦ ground arith
  | inr t ↦
      answer_total a s p (parse_packet p.payload) (parse_packet_total p.payload) (ground arith)
]
