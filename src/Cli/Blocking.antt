-- ===== src/Cli/Blocking.antt =====
-- `travelmode block` of crates/cli/src/main.rs against the daemon: what the user typed, to what the
-- firewall does with the packets.
use travelmode.Base.{
  ◌≡◌, refl, Bool, false, List, [], none, some, Text, FilePath, arith, path_beq_refl,
}
use travelmode.Types.{RuleInput, block}
use travelmode.State.{DaemonState}
use travelmode.Ipc.{add_rule, ok, success}
use travelmode.Ipc.Frames.{Travels}
use travelmode.Firewall.Verdict.{Arrival}
use travelmode.Daemon.{Setting, dispatch}
use travelmode.Daemon.Blocking.{IsFrom}
use travelmode.Server.{Received}
use travelmode.Server.Exchange.{connected}
use travelmode.Server.AddRule.{IsDropped, served, served-Added, served-drops, dispatch-Added}
use travelmode.Cli.Resolve.{Shell, resolve_exe}
use travelmode.Cli.{
  Net, roundtrip, rule_input, simple_request, resolve_rule, add_resolved, run, block_app,
}

-- `travelmode block` of an executable that resolves, over a connection to the daemon while
-- filtering is on, where the protocol carries the request and the answer: the command succeeds
-- without output, and in the state that the daemon is then in, every packet that is attributed to
-- the executable is dropped and counted.
pub block_app-drops :
    (n : Net) (sh : Shell) (target : Text) (no_persist : Bool) (exe : FilePath) (e : Setting)
    (s : DaemonState) (rx : List Received) (p : Arrival)
    → resolve_exe sh (roundtrip n) target ≡ success exe
    → n.dial (add_rule (rule_input exe target block none no_persist))
      ≡ connected n.requests n.responses (dispatch e) s rx
    → Travels n.requests (add_rule (rule_input exe target block none no_persist))
    → Travels n.responses ok
    → s.paused ≡ false
    → IsFrom
        (served n.requests n.responses e s
          (add_rule (rule_input exe target block none no_persist))
          rx)
        p
        exe
    → (run n sh false (block_app target none no_persist) ≡ some ([], success tt))
      × IsDropped e.addresses
          (served n.requests n.responses e s
            (add_rule (rule_input exe target block none no_persist))
            rx)
          p
unfolding run resolve_rule add_resolved simple_request roundtrip
block_app-drops n sh target no_persist exe e s rx p x d q r on f =
    let input : RuleInput = rule_input exe target block none no_persist in
    (
      ground (
        arith,
        x,
        d,
        (served-Added n.requests n.responses e s input rx (dispatch-Added e s input refl) q r).0,
      ),
      served-drops n.requests n.responses e s input rx p exe refl refl (path_beq_refl exe) q r on f,
    )
