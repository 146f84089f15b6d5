-- ===== src/Tests/Daemon.antt =====
-- Verdicts and requests at the machine of the tests.
use travelmode.Base.Map
use travelmode.Base.Parsing
use travelmode.Base.Parsing.{parse_uint, show_ℕ}
use travelmode.Base.{
  ℕ, ◌≡◌, refl, zero, suc, true, [], ◌∷◌, List, Option, none, some, text, ◌%◌, u64_mod, path_beq,
}
use travelmode.Types.{RuleInput, block}
use travelmode.Attrib
use travelmode.Attrib.{lookup}
use travelmode.FlowKill.Victims.{IsCut}
use travelmode.Rules.{complete, is_blocked, is_expired}
use travelmode.State
use travelmode.State.{DaemonState, attribute, publish}
use travelmode.Firewall.Packet.{parse_packet}
use travelmode.Firewall.Verdict.{Verdict, Arrival, decide}
use travelmode.Firewall.Verdict.Exact.{IsForbidden, decide-drop}
use travelmode.Ipc.{add_rule, Json}
use travelmode.Daemon.{Setting, Effects, Handled, dispatch}
use travelmode.Daemon.Blocking.{dispatch-IsCut}
use travelmode.Daemon.TopApps.{sum_by, top_apps-sums, top_apps}
use travelmode.Tests.World.{addresses, machine, curl, show, parse}
use travelmode.Tests.Codec.{plain, to_text, from_text}
use travelmode.Tests.Flows.{idle, tools, flow, tracking, restarted}

program : Unit {0}
unfolding Parsing.lines Parsing.split_whitespace Parsing.ends_with Parsing.after_last
    Parsing.contains Parsing.strip_prefix Parsing.strip_last Parsing.split_once lookup show_ℕ
    parse_uint show parse Map.get Map.insert path_beq Attrib.new State.new attribute parse_packet
    is_blocked is_expired decide dispatch to_text from_text
program = tt

-- The first packet of the flow from port 51234 to 93.184.216.34:443.
abbrev pub arrival : Arrival
arrival = record {
  payload =
      0x45 ∷ 0 ∷ 0 ∷ 44 ∷ 0 ∷ 0 ∷ 0 ∷ 0 ∷ 64 ∷ 6 ∷ 0 ∷ 0 ∷ 192 ∷ 168 ∷ 1 ∷ 10 ∷ 93 ∷ 184 ∷ 216 ∷ 34
      ∷ 200 ∷ 34 ∷ 1 ∷ 187 ∷ [];
  world = machine;
  now = 1000;
  instant = 7;
}

abbrev pub setting : Setting
setting = record {
  platform = plain;
  addresses = addresses;
  version = text "0.1.0";
  now = 1000;
  tools = tools;
  saving = record { mkdir_ok = true; write = complete; rename_ok = true };
}

abbrev pub request : RuleInput
request = record {
  name = text "curl";
  exe_path = curl;
  action = block;
  persistent = true;
  ttl_secs = none;
}

abbrev dropped : Option (Verdict × DaemonState) → DaemonState
dropped none = restarted
dropped (some (v, s)) = s

decide-drop_example : IsForbidden restarted arrival
unfolding program
decide-drop_example =
    decide-drop addresses restarted (dropped (decide addresses restarted arrival)) arrival refl

top_apps-sums_example :
    (sum_by (λ u. u.bytes_sent) (top_apps tracking 5) % u64_mod
      ≡ sum_by (λ c. c.bytes_sent) (Map.values tracking.connections) % u64_mod)
    × (sum_by (λ u. u.bytes_recv) (top_apps tracking 5) % u64_mod
        ≡ sum_by (λ c. c.bytes_recv) (Map.values tracking.connections) % u64_mod)
top_apps-sums_example = top_apps-sums tracking 5

abbrev state_of : Option Handled → DaemonState
state_of none = idle
state_of (some (response, s, fx)) = s

abbrev effects_of : Option Handled → Effects
effects_of none = record { commands = []; toggle = none }
effects_of (some (response, s, fx)) = fx

abbrev pub after : DaemonState
after = state_of (dispatch setting tracking (add_rule request))

abbrev pub done : Effects
done = effects_of (dispatch setting tracking (add_rule request))

dispatch-IsCut_example : IsCut addresses tools done.commands flow
unfolding program
dispatch-IsCut_example =
    dispatch-IsCut setting tracking after done request (text "k") flow refl refl refl refl

zeros : ℕ → List ℕ
zeros zero = []
zeros (suc n) = 0 ∷ zeros n

abbrev long : Json ℕ
long = record { to_vec = λ n. some (zeros n); from_slice = λ bs. none }
