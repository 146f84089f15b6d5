-- ===== src/Tests/Host.antt =====
-- The scan of processes and the choice of a route at concrete inputs.
use travelmode.Base.Map
use travelmode.Base.Parsing
use travelmode.Base.Parsing.{show_ℕ, parse_uint}
use travelmode.Attrib
use travelmode.Attrib.{lookup}
use travelmode.Base.{
  path_beq, some, Option, Text, text_key, arith, ◌≡◌, refl, true, List, [], ◌∷◌, none, nat_key,
}
use travelmode.Types.{tcp, ConnectionInfo, v4, v6}
use travelmode.State
use travelmode.State.Events.{fold_events}
use travelmode.Procs.Scan.Sync.{InSync}
use travelmode.Conntrack.{flow_key, parse_line}
use travelmode.Conntrack.Poll.{poll_once}
use travelmode.Conntrack.Poll.Sync as Flows
use travelmode.Conntrack.Poll.Sync.{mirror}
use travelmode.FlowKill.Victims.{IsCut}
use travelmode.FlowKill.Startup.{Polled, primed, track, track-IsCut}
use travelmode.Ipc.{add_rule}
use travelmode.Daemon.{no_network}
use travelmode.Daemon.Tasks.{Step, request, packet, poll, scan, reap, network_read, run}
use travelmode.Daemon.Tasks.Sync.{InStep, run-InStep}
use travelmode.State.{DaemonState, attribute}
use travelmode.Tests.Daemon.{setting, arrival}
use travelmode.Tests.Daemon.{request as input}
use travelmode.Netinfo.Route.{RouteMessage, gateway, oif, main_table, choose_route}
use travelmode.Netinfo.Route.Reference.{preferred, offers, choose_route-preferred}
use travelmode.Tests.Flows.{idle, restarted, tools, flow}
use travelmode.Tests.World.{machine, addresses, curl, show, parse}

idle-InSync : InSync idle
unfolding Map.contains_key Map.get State.new fold_events
idle-InSync k = refl

idle_flows-InSync : Flows.InSync idle
unfolding Map.get State.new mirror fold_events
idle_flows-InSync = record { mirrored = λ k. refl; keyed = λ k c g. absurd (ground arith) }

-- A request between a scan and a poll, and then a packet and the reaper.
abbrev steps : List Step
steps =
    scan machine
    ∷ request setting (add_rule input)
    ∷ poll machine 5
    ∷ packet arrival
    ∷ reap setting
    ∷ network_read no_network
    ∷ []

run-InStep_example : InStep (run addresses steps (record { state = idle; users = [] })).state
run-InStep_example =
    run-InStep addresses steps (record { state = idle; users = [] })
      (record { flows = idle_flows-InSync; pids = idle-InSync })

program : Unit {0}
unfolding Parsing.lines Parsing.split_whitespace Parsing.ends_with Parsing.after_last
    Parsing.contains Parsing.strip_prefix Parsing.strip_last Parsing.split_once show_ℕ parse_uint
    show parse lookup flow_key parse_line Map.get Map.insert path_beq Attrib.new Attrib.refresh
    State.new attribute poll_once fold_events
program = tt

-- The rules on disk block curl, and the first poll finds its flow.
abbrev blocking : DaemonState
blocking = record idle { rules = restarted.rules }

abbrev polled : Polled
polled = record { world = machine; now = 5; tools = tools }

abbrev found : DaemonState
found = poll_once addresses machine 5 (primed machine blocking)

abbrev key : Text
key = flow_key addresses tcp (v4 192 168 1 10) 51234 (v4 93 184 216 34) 443

abbrev flow_of : Option ConnectionInfo → ConnectionInfo
flow_of none = flow
flow_of (some conn) = conn

track-IsCut_example :
    IsCut addresses tools
      (track addresses machine (polled ∷ polled ∷ []) blocking).0
      (flow_of (Map.get key found.connections))
unfolding program Map.contains_key Map.update_or Map.keys
track-IsCut_example =
    track-IsCut addresses machine polled (polled ∷ []) blocking key curl
      (flow_of (Map.get key found.connections)) refl refl refl

-- A route without a gateway, one over IPv6, and one over IPv4.
abbrev routes : List RouteMessage
routes =
    record {
      table = main_table;
      is_unicast = true;
      destination_prefix_length = 0;
      attributes = oif 3 ∷ [];
    }
    ∷ record {
      table = main_table;
      is_unicast = true;
      destination_prefix_length = 0;
      attributes = gateway (v6 (254 ∷ 128 ∷ [])) ∷ oif 2 ∷ [];
    }
    ∷ record {
      table = main_table;
      is_unicast = true;
      destination_prefix_length = 0;
      attributes = gateway (v4 192 168 1 1) ∷ oif 2 ∷ [];
    }
    ∷ []

choose_route-preferred_example :
    choose_route [] routes (none, none) ≡ preferred (none, none) (offers [] routes)
choose_route-preferred_example = choose_route-preferred [] routes
