-- ===== src/Tests/Client.antt =====
-- The client's state at a concrete session.
use travelmode.Base.Map
use travelmode.Base.{refl, true, false, [], ◌∷◌, List, none, some, text, path_beq}
use travelmode.Types.{Status, Rule, block, rule_added, connection_opened}
use travelmode.Client.{ClientState, AppEntry, apply_event}
use travelmode.Client.Flags.{IsFlagged}
use travelmode.Client.Snapshot.{apply_snapshot, tick}
use travelmode.Client.Session.{Turn, arrived, ticked, turns, session-AreFlagged}
use travelmode.Daemon.{no_network}
use travelmode.Tests.World.{curl}
use travelmode.Tests.Flows.{flow}

program : Unit {0}
unfolding turns tick apply_event apply_snapshot path_beq Map.get Map.insert Map.remove Map.update_or
    Map.map_values
program = tt

abbrev pub nothing : ClientState
nothing = record {
  connected = false;
  status = none;
  network = none;
  rules = [];
  paused = false;
  apps = [];
  conns = [];
  conn_order = [];
  total_up = 0;
  total_down = 0;
  speed_up = 0;
  speed_down = 0;
  prev_total_up = 0;
  prev_total_down = 0;
}

abbrev pub status : Status
status = record {
  version = text "0.1.0";
  uptime_secs = 60;
  paused = false;
  filtering_active = true;
  rules_count = 0;
  tracked_connections = 0;
  tracked_processes = 0;
}

abbrev rule : Rule
rule = record {
  id = 9;
  name = text "curl";
  exe_path = curl;
  action = block;
  persistent = true;
  expires_at = none;
  profile = text "default";
  updated_at = 0;
}

-- curl opens a flow, and is blocked.
abbrev pub events : List Turn
events = arrived (connection_opened flow) ∷ ticked ∷ arrived (rule_added rule) ∷ []

abbrev pub blocked_curl : AppEntry
blocked_curl = record {
  name = text "curl";
  exe = some curl;
  bytes_sent = 180;
  bytes_recv = 900;
  connections = 1;
  blocked = true;
  block_rule_id = some 9;
  speed_up = 180;
  speed_down = 900;
  prev_sent = 180;
  prev_recv = 900;
}

session-AreFlagged_example :
    IsFlagged (turns events (apply_snapshot status no_network [] [] [] nothing)).rules blocked_curl
unfolding program
session-AreFlagged_example =
    session-AreFlagged status no_network [] [] [] nothing events (text "/usr/bin/curl") blocked_curl
      refl
