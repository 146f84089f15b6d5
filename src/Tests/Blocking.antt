-- ===== src/Tests/Blocking.antt =====
-- Blocking from either client, at the machine of the tests.
use travelmode.Base.Map
use travelmode.Base.Parsing
use travelmode.Base.Parsing.{parse_uint, show_ℕ}
use travelmode.Base.{
  ◌≡◌, refl, true, false, [], ◌∷◌, ◌++◌, Option, none, some, text, text_key, path_beq,
}
use travelmode.Types.{Rule, tcp, v4, rule_added, rule_removed}
use travelmode.Attrib
use travelmode.Attrib.{lookup}
use travelmode.Rules
use travelmode.Rules.{new_rule, is_blocked, is_expired, RuleStore}
use travelmode.State
use travelmode.State.{DaemonState, attribute}
use travelmode.Ipc.{add_rule, remove_rule, success, read_frame, write_frame}
use travelmode.Ipc.Link.{Link, exchange}
use travelmode.Firewall.Packet.{parse_packet}
use travelmode.Firewall.Verdict.{decide}
use travelmode.Daemon.{dispatch}
use travelmode.Daemon.Blocking.{IsFrom}
use travelmode.Server.{accept_loop}
use travelmode.Server.Exchange.{connected}
use travelmode.Server.AddRule.{IsDropped, served}
use travelmode.Client.{AppEntry, new_entry, apply_event}
use travelmode.Cli.{Net, run, block_app}
use travelmode.Cli.Resolve.{resolve_exe, file_name}
use travelmode.Cli.Blocking.{block_app-drops}
use travelmode.Gui.Pages.Applications.{AppRow, create_row, new_page, switch_commands, update}
use travelmode.Gui.{try_command}
use travelmode.Gui.Unblocking.{switch_on-allows}
use travelmode.Gui.Blocking.{IsSwitchedOff, switch_off-drops}
use travelmode.Gui as Gui
use travelmode.Tests.World.{addresses, curl, show, parse}
use travelmode.Tests.Codec.{to_text, from_text}
use travelmode.Tests.Flows.{tracking}
use travelmode.Tests.Daemon.{setting, request, arrival, after}
use travelmode.Tests.Protocol.{
  requests, responses, add_rule-Travels, remove_rule-Travels, ok-Travels,
}
use travelmode.Tests.Clients.{net, shell}
use travelmode.Tests.Client.{nothing}
use travelmode.Tests.Gui.{wire, formats}
use travelmode.Gui.Pages.Applications.Shown.{new_page-InPlace}

program : Unit {0}
unfolding Parsing.lines Parsing.split_whitespace Parsing.ends_with Parsing.after_last
    Parsing.contains Parsing.split Parsing.strip_prefix Parsing.strip_last Parsing.split_once lookup
    show_ℕ parse_uint show parse Map.get Map.insert path_beq Attrib.new State.new attribute
    parse_packet is_blocked is_expired decide dispatch to_text from_text accept_loop read_frame
    write_frame exchange
program = tt

abbrev link : Link
link = connected requests responses (dispatch setting) tracking []

abbrev online : Net
online = record net { dial = λ r. link }

curl-IsFrom : IsFrom (served requests responses setting tracking (add_rule request) []) arrival curl
unfolding program
curl-IsFrom = record {
  proto = tcp;
  port = 51234;
  remote_addr = v4 93 184 216 34;
  remote_port = 443;
  parsed = refl;
  pid = 42;
  name = some (text "curl");
  owner = refl;
}

block_app-drops_example :
    (run online shell false (block_app (text "curl") none false) ≡ some ([], success tt))
    × IsDropped addresses (served requests responses setting tracking (add_rule request) []) arrival
unfolding program file_name resolve_exe
block_app-drops_example =
    block_app-drops online shell (text "curl") false curl setting tracking [] arrival refl refl
      add_rule-Travels ok-Travels refl curl-IsFrom

abbrev curl_row : AppRow
curl_row = create_row (new_entry (text "curl") (some curl))

abbrev blocked_curl : AppEntry
blocked_curl = record (new_entry (text "curl") (some curl)) {
  blocked = true;
  block_rule_id = some 1;
}

switch_off-drops_example :
    (switch_commands curl_row false ≡ Gui.block_app (text "curl") curl ∷ [])
    × (try_command wire (λ r. link) (Gui.block_app (text "curl") curl) ≡ [])
    × (DaemonState.events (served requests responses setting tracking (add_rule request) [])
        ≡ [] ++ rule_added (new_rule request 1000 none 1) ∷ [])
    × IsDropped addresses (served requests responses setting tracking (add_rule request) []) arrival
    × IsSwitchedOff
        (text "/usr/bin/curl")
        (update formats (apply_event (rule_added (new_rule request 1000 none 1)) nothing) new_page)
unfolding program create_row apply_event Map.update_or Map.map_values
switch_off-drops_example =
    switch_off-drops wire (λ r. link) formats curl_row curl setting tracking [] arrival nothing
      new_page (text "/usr/bin/curl") blocked_curl refl refl add_rule-Travels ok-Travels refl
      curl-IsFrom new_page-InPlace tt refl refl

-- The rule that the daemon has, and the store without it.
abbrev curl_rule : Rule
curl_rule = new_rule request 1000 none 1

abbrev store_of : Option (Rule × RuleStore) → RuleStore
store_of none = after.rules
store_of (some (rule, store)) = store

abbrev emptied : RuleStore
emptied = store_of (Rules.remove setting.platform setting.saving after.rules 1)

abbrev off_row : AppRow
off_row = create_row blocked_curl

abbrev second_link : Link
second_link = connected requests responses (dispatch setting) after []

switch_on-allows_example :
    (switch_commands off_row true ≡ Gui.unblock 1 ∷ [])
    × (try_command wire (λ r. second_link) (Gui.unblock 1) ≡ [])
    × (DaemonState.events (served requests responses setting after (remove_rule 1) [])
        ≡ after.events ++ rule_removed 1 ∷ [])
    × (is_blocked
          (DaemonState.rules (served requests responses setting after (remove_rule 1) []))
          curl
          2000
        ≡ false)
unfolding program create_row Rules.remove
switch_on-allows_example =
    switch_on-allows wire (λ r. second_link) off_row 1 setting after [] curl_rule emptied curl 2000
      refl refl remove_rule-Travels ok-Travels
      (record { bounded = refl; ids = (refl, tt); targets = (refl, tt) }) refl refl refl
