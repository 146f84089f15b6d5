-- ===== src/FlowKill/Startup.antt =====
-- The connection task: `run` of crates/daemon/src/conntrack.rs. After its first poll it kills the
-- flows that the rules on disk forbid.
use travelmode.Base.Map
use travelmode.Base.{
  ℕ, ◌≡◌, Bool, true, false, ◌&&◌, List, [], ◌∷◌, ◌++◌, some, Text, text_key, FilePath, path_beq,
  any, if◌then◌else◌,
}
use travelmode.Types.{ConnectionInfo, block, action_beq}
use travelmode.World.{World}
use travelmode.Attrib
use travelmode.Conntrack.{AddrText}
use travelmode.Conntrack.Poll.{poll_once}
use travelmode.State.{DaemonState}
use travelmode.FlowKill.{Command, Tools, kill_flows_for_block_rules}
use travelmode.FlowKill.Victims.{IsCut, IsCut-append_left, kill_flows_for_block_rules-IsCut}

-- What one turn of the loop finds.
pub record Polled : Type 0 where
  pub world : World
  pub now : ℕ
  pub tools : Tools

unfoldable pub poll_turns : AddrText → Bool → List Polled → DaemonState → List Command × DaemonState
poll_turns a enforced [] s = ([], s)
poll_turns a enforced (p ∷ ps) s =
    let s' : DaemonState = poll_once a p.world p.now s in
    let (rest, end) = poll_turns a true ps s' in
    ((if enforced then [] else kill_flows_for_block_rules a p.tools s') ++ rest, end)

-- The cache of inodes is filled before the first poll.
abbrev pub primed : World → DaemonState → DaemonState
primed w s = record s { attrib = Attrib.refresh w s.attrib }

unfoldable pub track : AddrText → World → List Polled → DaemonState → List Command × DaemonState
unfolding poll_turns
track a w turns s = poll_turns a false turns (primed w s)

-- Once the connection task has polled for the first time, the commands that cut a flow off have
-- been run for every flow it found whose executable some rule of the list blocks, however many
-- polls follow.
pub track-IsCut :
    (a : AddrText) (w : World) (p : Polled) (ps : List Polled) (s : DaemonState) (k : Text)
    (exe : FilePath) (conn : ConnectionInfo)
    → Map.get k (poll_once a p.world p.now (primed w s)).connections ≡ some conn
    → conn.exe ≡ some exe
    → any
        (λ r. action_beq r.action block && path_beq exe r.exe_path)
        (poll_once a p.world p.now (primed w s)).rules.rules
      ≡ true
    → IsCut a p.tools (track a w (p ∷ ps) s).0 conn
unfolding track poll_turns
track-IsCut a w p ps s k exe conn g o h =
    let found : DaemonState = poll_once a p.world p.now (primed w s) in
    IsCut-append_left a p.tools (kill_flows_for_block_rules a p.tools found)
      (poll_turns a true ps found).0 conn
      (kill_flows_for_block_rules-IsCut a p.tools found k exe conn g o h)
