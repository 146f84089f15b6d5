-- ===== src/Tests/Gui.antt =====
-- The graphical client at a concrete session.
use travelmode.Base.Map
use travelmode.Base.{
  ◌≡◌, ◌≤◌, refl, true, false, List, [], ◌∷◌, ◌++◌, none, some, text, Text, length, text_key, leb,
  ◌/◌,
}
use travelmode.Base.Floats.{Floats}
use travelmode.Base.Parsing.{show_ℕ}
use travelmode.Types.{connection_opened, paused_changed}
use travelmode.Ipc.{
  subscribe, get_status, get_network, get_top, get_connections, list_rules, unexpected_eof,
  write_frame, read_frame,
}
use travelmode.Ipc.Link.{open_socket, refused, exchange}
use travelmode.Ipc.Frames.{working}
use travelmode.Server.{Received, broadcast, lagged, channel_closed, stream_events}
use travelmode.Server.Stream.{delivered}
use travelmode.Client.{AppEntry, ClientState, max_connections}
use travelmode.Client.Snapshot.{apply_snapshot}
use travelmode.Client.Session.{turns}
use travelmode.Client.Cap.{length-turns-conns}
use travelmode.Gui.{
  connected, event, Wire, Dial, Snapshot, set_paused, refresh_tray_icon, fetch, one_shot,
}
use travelmode.Gui.Session.{
  Turn, frame, command, gone, Episode, elapsed, issued, window_gone, session, run,
}
use travelmode.Gui.Session.Orderly.{Orderly, run-Orderly}
use travelmode.Gui.Session.Follows.{receive, apply_events, session-follows}
use travelmode.Gui.Window.{
  App, Input, client, init, snapshot_state, message, callback, tick_msg, tray_ready,
  pause_filtering, close_request, default_state,
}
use travelmode.Gui.Pages.{Formats}
use travelmode.Gui.Pages.Applications.{AppRow, update}
use travelmode.Gui.Pages.Applications.Placed.{InPlace}
use travelmode.Gui.Pages.Applications.Shown.{Agrees, Named, drawn}
use travelmode.Gui.Pages.Applications.Live.{session-Agrees}
use travelmode.Daemon.{no_network}
use travelmode.Tests.Client.{status, nothing, events}
use travelmode.Tests.Flows.{flow}
use travelmode.Tests.Protocol.{
  requests, responses, errors, answering, subscribe-Travels, opened-Travels, paused-Travels,
}

-- A number by its whole part.
abbrev pub floats : Floats
floats = record {
  from_u64 = λ n. n;
  at_least_1024 = leb 1024;
  div_1024 = λ n. n / 1024;
  show_1 = λ n. show_ℕ n ++ text ".0";
}

abbrev pub formats : Formats
formats = record { floats = floats; show_ip = λ ip. text "ip" }

abbrev pub wire : Wire
wire = record {
  requests = requests;
  responses = responses;
  errors = errors;
  socket = record { display = text "/run/travelmode.sock" };
  debug = λ r. text "?";
}

abbrev rx : List Received
rx =
    broadcast (connection_opened flow)
    ∷ lagged 3
    ∷ broadcast (paused_changed true)
    ∷ channel_closed
    ∷ []

abbrev dial : Dial
dial subscribe = open_socket none (λ _. record {
  bytes = (stream_events requests responses (working []) rx).1.sent;
  end = unexpected_eof;
})
dial get_status = answering 1
dial get_network = answering 2
dial get_top = answering 3
dial get_connections = answering 4
dial list_rules = answering 5
dial _ = answering 0

abbrev snapshot : Snapshot
snapshot = record { status = status; network = no_network; top = []; conns = []; rules = [] }

-- The user pauses between the two events.
abbrev session_turns : List Turn
session_turns =
    frame ∷ command 0 (set_paused true) dial ∷ frame ∷ command 0 refresh_tray_icon dial ∷ []

session-follows_example :
    App.state (receive formats (session wire true dial session_turns).0 (init false))
    ≡ apply_events
        (connection_opened flow ∷ paused_changed true ∷ [])
        (snapshot_state snapshot default_state)
unfolding delivered fetch one_shot exchange write_frame read_frame stream_events init
session-follows_example =
    session-follows formats wire true dial session_turns rx unexpected_eof snapshot (init false)
      subscribe-Travels (opened-Travels, (paused-Travels, tt)) refl refl (refl, (refl, refl))

-- Two sessions, the second after the daemon could not be reached.
abbrev episodes : List Episode
episodes =
    record {
      dial = λ _. refused (text "no such file");
      turns = [];
      waits = issued (set_paused true) dial ∷ elapsed ∷ [];
    }
    ∷ record { dial = dial; turns = session_turns ++ gone ∷ []; waits = window_gone ∷ [] }
    ∷ []

run-Orderly_example : Orderly false (run wire true episodes)
run-Orderly_example = run-Orderly wire true episodes

-- The daemon is reached, a connection opens, the user pauses, and the window is closed to the tray.
abbrev inputs : List Input
inputs =
    message (client (connected snapshot))
    ∷ message (client (event (connection_opened flow)))
    ∷ message tick_msg
    ∷ callback pause_filtering
    ∷ message (client (event (paused_changed true)))
    ∷ message (tray_ready true)
    ∷ callback close_request
    ∷ []

length-turns-conns_example :
    length (turns events (apply_snapshot status no_network [] (flow ∷ []) [] nothing)).conns
    ≤ max_connections
length-turns-conns_example =
    length-turns-conns status no_network [] (flow ∷ []) [] nothing events refl

abbrev live : ClientState
live = turns events (apply_snapshot status no_network [] [] [] nothing)

-- The page had been drawn twice, first with no application and then with those of the session.
abbrev earlier : List ClientState
earlier = live ∷ nothing ∷ []

session-Agrees_example :
    ((k : Text)
      → Agrees formats
          (Map.get k live.apps)
          (Map.get k (update formats live (drawn formats earlier)).rows))
    × ((k : Text) (app : AppEntry) (row : AppRow)
        → Map.get k live.apps ≡ some app
        → Map.get k (update formats live (drawn formats earlier)).rows ≡ some row
        → Named (Map.get k (drawn formats earlier).rows) app row)
    × InPlace (update formats live (drawn formats earlier))
session-Agrees_example = session-Agrees formats status no_network [] [] [] nothing events earlier
