-- ===== src/Tests/Clients.antt =====
-- Both clients and the socket server at concrete connections.
use travelmode.Base.Parsing
use travelmode.Base.{
  ◌≡◌, ◌≢◌, refl, true, false, List, [], ◌∷◌, Option, none, some, text, Text, FilePath, path_beq,
}
use travelmode.Types.{connection_opened, paused_changed, block}
use travelmode.Ipc.{add_rule, ok, closed, unexpected_eof, Outcome, success, write_frame, read_frame}
use travelmode.Ipc.Link.{exchange}
use travelmode.Ipc.Frames.{working}
use travelmode.Daemon.{dispatch}
use travelmode.Server.{
  Received, broadcast, lagged, channel_closed, handle_client, Served, stream_events,
}
use travelmode.Server.Stream.{delivered}
use travelmode.Server.Exchange.{connected, exchange-handle_client}
use travelmode.Cli.{Net, run, Printed, roundtrip, rule_input}
use travelmode.Cli.Resolve.{Shell, resolve_exe}
use travelmode.Cli.Requests.{run-block_app}
use travelmode.Cli.Watch.{watch}
use travelmode.Cli.Watch.Total.{watch_total, watch-stream_events}
use travelmode.Tests.Daemon.{setting, request, after, done}
use travelmode.Tests.Flows.{flow, tracking}
use travelmode.Tests.World.{curl}
use travelmode.Tests.Protocol.{
  requests, responses, errors, answering, add_rule-Travels, ok-Travels, opened-Travels,
  paused-Travels,
}

exchange-handle_client_example :
    (exchange requests responses
        (connected requests responses (dispatch setting) tracking [])
        (add_rule request)
      ≡ success ok)
    × ((served : Served) × (handle_client requests responses
            (dispatch setting)
            tracking
            (record {
              bytes = (write_frame requests (working []) (add_rule request)).1.sent;
              end = unexpected_eof;
            })
            (working [])
            []
          ≡ some served)
        × (served.state ≡ after)
        × (served.effects ≡ done)
        × (served.reason ≡ some closed))
unfolding dispatch
exchange-handle_client_example =
    exchange-handle_client requests responses (dispatch setting) tracking (add_rule request) ok
      after done [] add_rule-Travels ok-Travels refl refl

-- A subscriber that lags once.
abbrev rx : List Received
rx =
    broadcast (connection_opened flow)
    ∷ lagged 3
    ∷ broadcast (paused_changed true)
    ∷ channel_closed
    ∷ []

watch_total_example :
    watch responses (record { bytes = 0 ∷ 0 ∷ 0 ∷ []; end = unexpected_eof }) ≢ none
watch_total_example =
    watch_total responses (record { bytes = 0 ∷ 0 ∷ 0 ∷ []; end = unexpected_eof })

watch-stream_events_example :
    watch responses (record {
      bytes = (stream_events requests responses (working []) rx).1.sent;
      end = unexpected_eof;
    })
    ≡ some (connection_opened flow ∷ paused_changed true ∷ [])
unfolding stream_events delivered
watch-stream_events_example =
    watch-stream_events requests responses rx unexpected_eof (opened-Travels, (paused-Travels, tt))

-- Two directories in PATH; only the second has curl.
abbrev pub shell : Shell
shell = record {
  path_var = some (text "/bin:/usr/bin");
  exists = λ p. true;
  canonicalize = λ p. success p;
  is_file = λ p. path_beq p curl;
  mode = λ p. some 0x1ed;
}

abbrev pub net : Net
net = record {
  requests = requests;
  responses = responses;
  errors = errors;
  socket = record { display = text "/run/travelmode.sock" };
  dial = λ r. answering 0;
  debug = λ r. text "?";
}

abbrev printed : Option (List Printed × Outcome Text (Unit {0})) → List Printed
printed none = []
printed (some (out, result)) = out

run-block_app_example :
    (exe : FilePath) × (resolve_exe shell (roundtrip net) (text "curl") ≡ success exe)
    × (roundtrip net (add_rule (rule_input exe (text "curl") block (some 60) false)) ≡ success ok)
unfolding run resolve_exe path_beq Parsing.contains Parsing.split Parsing.ends_with exchange
    write_frame read_frame
run-block_app_example = run-block_app net shell (text "curl") (some 60) false [] refl
