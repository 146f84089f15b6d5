-- ===== src/FlowKill/Victims.antt =====
-- Which flows crates/daemon/src/flowkill.rs kills.
use travelmode.Base.Map
use travelmode.Base.Map.{Map}
use travelmode.Base.{
  ◌≡◌, refl, Bool, true, ◌||◌, ◌&&◌, not, List, [], ◌∷◌, ◌++◌, some, Text, text_beq, texts_beq,
  texts_beq_refl, text_beq_refl, FilePath, path_beq, arith, any, any-append, is_empty, text_key,
  if◌then◌else◌, Bool-cases, inl, inr,
}
use travelmode.Types.{ConnectionInfo, tcp, other, protocol_beq, Rule, block, action_beq}
use travelmode.Conntrack.{AddrText}
use travelmode.State.{DaemonState}
use travelmode.FlowKill.{
  Command, owned_by, matching_flows, Tools, ss_command, conntrack_command, conntrack_delete_args,
  kill_flow, kill_flows, kill_flows_for_exe, kill_for_rules, kill_flows_for_block_rules,
  delete_conntrack_entry, kill_tcp_socket,
}

abbrev pub command_beq : Command → Command → Bool
command_beq (p, xs) (q, ys) = text_beq p q && texts_beq xs ys

command_beq_refl : (c : Command) → command_beq c c ≡ true
command_beq_refl (p, xs) = ground (arith, text_beq_refl p, texts_beq_refl xs)

abbrev pub runs : Command → List Command → Bool
runs c cs = any (command_beq c) cs

-- Whether the commands cut a flow off: for TCP its socket is destroyed, and where conntrack-tools
-- are installed its entry is deleted.
abbrev pub is_cut : AddrText → Tools → List Command → ConnectionInfo → Bool
is_cut a tools cs conn =
    (not (protocol_beq conn.protocol tcp) || runs (ss_command a conn) cs)
    && (not tools.conntrack_available
        || protocol_beq conn.protocol other
        || runs (conntrack_command a conn) cs)

abbrev pub IsCut : AddrText → Tools → List Command → ConnectionInfo → Type 0
IsCut a tools cs conn = is_cut a tools cs conn ≡ true

delete_args-is_empty :
    (a : AddrText) (conn : ConnectionInfo)
    → is_empty (conntrack_delete_args a conn) ≡ protocol_beq conn.protocol other
unfolding conntrack_delete_args
delete_args-is_empty a conn = ground arith

kill_flow-IsCut :
    (a : AddrText) (tools : Tools) (conn : ConnectionInfo)
    → IsCut a tools (kill_flow a tools conn).0 conn
unfolding kill_flow delete_conntrack_entry kill_tcp_socket
kill_flow-IsCut a tools conn = ground (
  arith,
  delete_args-is_empty a conn,
  any-append (command_beq (ss_command a conn)) (delete_conntrack_entry a tools conn).0
      (ss_command a conn ∷ []),
  any-append (command_beq (conntrack_command a conn)) (delete_conntrack_entry a tools conn).0
      (ss_command a conn ∷ []),
  command_beq_refl (ss_command a conn),
  command_beq_refl (conntrack_command a conn),
)

pub IsCut-append_left :
    (a : AddrText) (tools : Tools) (cs ds : List Command) (conn : ConnectionInfo)
    → IsCut a tools cs conn
    → IsCut a tools (cs ++ ds) conn
IsCut-append_left a tools cs ds conn h = ground (
  arith,
  any-append (command_beq (ss_command a conn)) cs ds,
  any-append (command_beq (conntrack_command a conn)) cs ds,
)

IsCut-append_right :
    (a : AddrText) (tools : Tools) (cs ds : List Command) (conn : ConnectionInfo)
    → IsCut a tools ds conn
    → IsCut a tools (cs ++ ds) conn
IsCut-append_right a tools cs ds conn h = ground (
  arith,
  any-append (command_beq (ss_command a conn)) cs ds,
  any-append (command_beq (conntrack_command a conn)) cs ds,
)

victims-IsCut :
    (a : AddrText) (tools : Tools) (m : Map Text ConnectionInfo) (exe : FilePath) (k : Text)
    (conn : ConnectionInfo)
    → Map.get k m ≡ some conn
    → owned_by exe conn ≡ true
    → IsCut a tools (kill_flows a tools (matching_flows m exe)).0 conn
unfolding Map.get matching_flows Map.values kill_flows
victims-IsCut a tools [] exe k conn g o = absurd (ground arith)
victims-IsCut a tools ((j, c) ∷ m) exe k conn g o = elim (Bool-cases (text_beq j k)) [
  | inl e ↦
      let same : c ≡ conn = ground arith in
      rw (same, o)
        (IsCut-append_left a tools (kill_flow a tools conn).0
          (kill_flows a tools (matching_flows m exe)).0 conn (kill_flow-IsCut a tools conn))
  | inr e ↦ elim (Bool-cases (owned_by exe c)) [
    | inl t ↦ rw t (
        IsCut-append_right a tools (kill_flow a tools c).0
          (kill_flows a tools (matching_flows m exe)).0 conn
          (victims-IsCut a tools m exe k conn (ground arith) o))
    | inr t ↦ rw t (victims-IsCut a tools m exe k conn (ground arith) o)
  ]
]

no_victims :
    (a : AddrText) (tools : Tools) (victims : List ConnectionInfo)
    → (if is_empty victims then ([], 0) else kill_flows a tools victims)
      ≡ kill_flows a tools victims
unfolding kill_flows
no_victims a tools [] = refl
no_victims a tools (v ∷ vs) = refl

kill_flows_for_exe-commands :
    (a : AddrText) (tools : Tools) (s : DaemonState) (exe : FilePath)
    → kill_flows_for_exe a tools s exe ≡ kill_flows a tools (matching_flows s.connections exe)
unfolding kill_flows_for_exe
kill_flows_for_exe-commands a tools s exe = no_victims a tools (matching_flows s.connections exe)

-- The commands that cut a flow off are run for every tracked flow of the executable.
pub kill_flows_for_exe-IsCut :
    (a : AddrText) (tools : Tools) (s : DaemonState) (exe : FilePath) (k : Text)
    (conn : ConnectionInfo)
    → Map.get k s.connections ≡ some conn
    → owned_by exe conn ≡ true
    → IsCut a tools (kill_flows_for_exe a tools s exe).0 conn
kill_flows_for_exe-IsCut a tools s exe k conn g o =
    rw (kill_flows_for_exe-commands a tools s exe)
      (victims-IsCut a tools s.connections exe k conn g o)

left_true : (b c : Bool) → (b && c) ≡ true → b ≡ true
left_true b c h = ground arith

rules-IsCut :
    (a : AddrText) (tools : Tools) (s : DaemonState) (rules : List Rule) (k : Text) (exe : FilePath)
    (conn : ConnectionInfo)
    → Map.get k s.connections ≡ some conn
    → conn.exe ≡ some exe
    → any (λ r. action_beq r.action block && path_beq exe r.exe_path) rules ≡ true
    → IsCut a tools (kill_for_rules a tools s rules) conn
unfolding kill_for_rules
rules-IsCut a tools s [] k exe conn g o h = absurd (ground arith)
rules-IsCut a tools s (r ∷ rules) k exe conn g o h =
    let cs : List Command =
      if action_beq r.action block then (kill_flows_for_exe a tools s r.exe_path).0 else [] in
    let ds : List Command = kill_for_rules a tools s rules in
    elim (Bool-cases (action_beq r.action block && path_beq exe r.exe_path)) [
      | inl e ↦ IsCut-append_left a tools cs ds conn (
          rw (left_true (action_beq r.action block) (path_beq exe r.exe_path) e)
            (kill_flows_for_exe-IsCut a tools s r.exe_path k conn g (ground arith)))
      | inr e ↦
          IsCut-append_right a tools cs ds conn
            (rules-IsCut a tools s rules k exe conn g o (ground arith))
    ]

-- The pass at startup runs the commands that cut a flow off for every tracked flow of an
-- executable that some rule of the list blocks.
pub kill_flows_for_block_rules-IsCut :
    (a : AddrText) (tools : Tools) (s : DaemonState) (k : Text) (exe : FilePath)
    (conn : ConnectionInfo)
    → Map.get k s.connections ≡ some conn
    → conn.exe ≡ some exe
    → any (λ r. action_beq r.action block && path_beq exe r.exe_path) s.rules.rules ≡ true
    → IsCut a tools (kill_flows_for_block_rules a tools s) conn
unfolding kill_flows_for_block_rules
kill_flows_for_block_rules-IsCut a tools s k exe conn g o h =
    rules-IsCut a tools s s.rules.rules k exe conn g o h
