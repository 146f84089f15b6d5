-- ===== src/FlowKill.antt =====
-- Termination of flows that a Block rule forbids: crates/daemon/src/flowkill.rs. The commands `ss`
-- and `conntrack` are run, so what they do is not modelled: each run is an entry of `Commands`,
-- and `succeeds` says which of them succeed.
pub mod Victims
pub mod Startup
use travelmode.Base.Map
use travelmode.Base.Map.{Map}
use travelmode.Base.Parsing.{show_ℕ}
use travelmode.Base.{
  ℕ, suc, Bool, true, false, not, ◌&&◌, ◌||◌, List, [], ◌∷◌, ◌++◌, Option, none, some, Text, text,
  FilePath, path_beq, retain, is_empty, if◌then◌else◌,
}
use travelmode.Types.{
  Protocol, tcp, udp, other, protocol_beq, ConnectionInfo, Rule, RuleAction, block, action_beq,
}
use travelmode.Conntrack.{AddrText}
use travelmode.State.{DaemonState}
use travelmode.Rules

-- A program and its arguments.
abbrev pub Command : Type 0
Command = Text × List Text

-- `c.exe.as_deref() == Some(exe_path)`
abbrev pub owned_by : FilePath → ConnectionInfo → Bool
owned_by exe_path c = elim c.exe [ none ↦ false | some exe ↦ path_beq exe exe_path ]

unfoldable pub matching_flows : Map Text ConnectionInfo → FilePath → List ConnectionInfo
matching_flows conns exe_path = retain (owned_by exe_path) (Map.values conns)

delete_command : AddrText → ConnectionInfo → Text → List Text
delete_command a conn proto =
    text "-D"
    ∷ text "-p"
    ∷ proto
    ∷ text "--orig-src"
    ∷ a.show conn.local_addr
    ∷ text "--orig-dst"
    ∷ a.show conn.remote_addr
    ∷ text "--sport"
    ∷ show_ℕ conn.local_port
    ∷ text "--dport"
    ∷ show_ℕ conn.remote_port
    ∷ []

unfoldable pub conntrack_delete_args : AddrText → ConnectionInfo → List Text
unfolding delete_command
conntrack_delete_args a conn = elim conn.protocol [
  | tcp ↦ delete_command a conn (text "tcp")
  | udp ↦ delete_command a conn (text "udp")
  | other ↦ []
]

unfoldable pub ss_kill_args : AddrText → ConnectionInfo → List Text
ss_kill_args a conn =
    text "-K"
    ∷ text "src"
    ∷ a.show conn.local_addr
    ∷ text "dst"
    ∷ a.show conn.remote_addr
    ∷ text "sport"
    ∷ text "="
    ∷ show_ℕ conn.local_port
    ∷ text "dport"
    ∷ text "="
    ∷ show_ℕ conn.remote_port
    ∷ []

-- What the system offers: whether `conntrack` is installed, probed once, and which runs succeed.
pub record Tools : Type 0 where
  pub conntrack_available : Bool
  pub succeeds : Command → Bool

abbrev pub conntrack_command : AddrText → ConnectionInfo → Command
conntrack_command a conn = (text "conntrack", conntrack_delete_args a conn)

abbrev pub ss_command : AddrText → ConnectionInfo → Command
ss_command a conn = (text "ss", ss_kill_args a conn)

-- The commands run, and whether one succeeded.
unfoldable pub delete_conntrack_entry : AddrText → Tools → ConnectionInfo → List Command × Bool
delete_conntrack_entry a tools conn =
    if is_empty (conntrack_delete_args a conn) || not tools.conntrack_available
    then ([], false)
    else (conntrack_command a conn ∷ [], tools.succeeds (conntrack_command a conn))

unfoldable pub kill_tcp_socket : AddrText → Tools → ConnectionInfo → List Command × Bool
kill_tcp_socket a tools conn = (ss_command a conn ∷ [], tools.succeeds (ss_command a conn))

-- The body of the loop: the socket is killed for TCP only.
unfoldable pub kill_flow : AddrText → Tools → ConnectionInfo → List Command × Bool
unfolding delete_conntrack_entry kill_tcp_socket
kill_flow a tools conn =
    let (cs, deleted) = delete_conntrack_entry a tools conn in
    let (ks, killed) = kill_tcp_socket a tools conn in
    if protocol_beq conn.protocol tcp then (cs ++ ks, deleted || killed) else (cs, deleted)

-- The commands of the loop, and `killed`.
unfoldable pub kill_flows : AddrText → Tools → List ConnectionInfo → List Command × ℕ
unfolding kill_flow
kill_flows a tools [] = ([], 0)
kill_flows a tools (conn ∷ victims) =
    let (cs, acted) = kill_flow a tools conn in
    let (rest, n) = kill_flows a tools victims in (cs ++ rest, if acted then suc n else n)

unfoldable pub kill_flows_for_exe : AddrText → Tools → DaemonState → FilePath → List Command × ℕ
unfolding matching_flows kill_flows
kill_flows_for_exe a tools s exe_path =
    let victims = matching_flows s.connections exe_path in
    if is_empty victims then ([], 0) else kill_flows a tools victims

unfoldable pub kill_for_rules : AddrText → Tools → DaemonState → List Rule → List Command
unfolding kill_flows_for_exe
kill_for_rules a tools s [] = []
kill_for_rules a tools s (rule ∷ rules) =
    (if action_beq rule.action block then (kill_flows_for_exe a tools s rule.exe_path).0 else [])
    ++ kill_for_rules a tools s rules

unfoldable pub kill_flows_for_block_rules : AddrText → Tools → DaemonState → List Command
unfolding kill_for_rules Rules.list
kill_flows_for_block_rules a tools s = kill_for_rules a tools s (Rules.list s.rules)
