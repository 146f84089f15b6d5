-- ===== src/Tests/Tasks.antt =====
-- The tasks of the daemon, interleaved at the machine of the tests.
use travelmode.Base.Map
use travelmode.Base.{
  refl, ◌≡◌, true, false, some, text, text_key, [], ◌∷◌, ◌++◌, List, arith, path_beq, any,
}
use travelmode.Types.{Rule, block}
use travelmode.Attrib
use travelmode.Rules
use travelmode.Rules.{RuleStore, is_blocked, is_expired}
use travelmode.Rules.Told.{has_id, hear_rule}
use travelmode.State
use travelmode.State.{DaemonState}
use travelmode.State.Events.{fold_events}
use travelmode.Client.{AppEntry, new_entry, apply_event}
use travelmode.Client.Snapshot.{apply_snapshot}
use travelmode.Ipc.{add_rule, get_status}
use travelmode.Daemon.{no_network, dispatch}
use travelmode.Daemon.Tasks.{System, Step, request, reap, network_read, run}
use travelmode.Daemon.Tasks.Knows.{Knows}
use travelmode.Daemon.Tasks.Informed.{run-Knows}
use travelmode.Daemon.Tasks.Clients.{run-shown_blocked}
use travelmode.Daemon.Tasks.Expiry.{run-expires}
use travelmode.Tests.World.{addresses, curl}
use travelmode.Tests.Flows.{idle}
use travelmode.Tests.Client.{status, nothing}
use travelmode.Tests.Daemon.{setting}
use travelmode.Tests.Daemon.{request as input}

program : Unit {0}
unfolding Map.get Map.insert Map.update_or Map.map_values Map.remove path_beq Attrib.new State.new
    is_blocked is_expired dispatch apply_event apply_snapshot fold_events run hear_rule
program = tt

abbrev started : System
started = record { state = idle; users = [] }

abbrev steps : List Step
steps = request setting (add_rule input) ∷ network_read no_network ∷ reap setting ∷ []

abbrev blocked_curl : AppEntry
blocked_curl = record (new_entry (text "curl") (some curl)) {
  blocked = true;
  block_rule_id = some 1;
}

-- The rule is added between the subscription and the snapshot.
run-shown_blocked_example : blocked_curl.blocked ≡ true
unfolding program
run-shown_blocked_example =
    run-shown_blocked addresses steps (reap setting ∷ []) started status no_network [] [] nothing
      (text "/usr/bin/curl") blocked_curl curl 1000 refl
      (record { bounded = refl; ids = tt; targets = tt }) (omega arith) refl refl refl

run-Knows_example : Knows [] (run addresses steps started).state
unfolding program
run-Knows_example =
    run-Knows [] addresses steps started (omega arith)
      (record { valid = record { bounded = refl; ids = tt; targets = tt }; known = λ p h. h })

abbrev temporary : Rule
temporary = record {
  id = 4;
  name = text "curl";
  exe_path = curl;
  action = block;
  persistent = false;
  expires_at = some 900;
  profile = text "default";
  updated_at = 0;
}

-- A state with a rule that expires at 900, before the time 1000 of the setting.
abbrev holding : System
holding = record {
  state = record idle { rules = record idle.rules { next_id = 5; rules = temporary ∷ [] } };
  users = [];
}

run-expires_example :
    any (has_id 4) (
      Rules.list
        (System.state (
          run addresses
            (request setting get_status ∷ []
              ++ reap setting ∷ request setting (add_rule input) ∷ [])
            holding)).rules)
    ≡ false
unfolding program
run-expires_example =
    run-expires addresses (request setting get_status ∷ []) (request setting (add_rule input) ∷ [])
      setting holding 4 (omega arith) refl (omega arith)
