-- ===== src/Tests/Protocol.antt =====
-- A protocol for the tests: the messages that the tests send, each as one byte.
use travelmode.Base.{get_elem?, refl, true, List, [], ◌∷◌, none, some, text, arith, ℕ, Option}
use travelmode.Types.{Event, connection_opened, paused_changed}
use travelmode.Ipc.{
  Request, subscribe, get_status, get_network, get_processes, get_connections, get_top, list_rules,
  add_rule, remove_rule, Response, Json, unexpected_eof,
}
use travelmode.Ipc.Link.{Link, open_socket, ErrorText}
use travelmode.Ipc.Frames.{Travels, frame}
use travelmode.Daemon.{no_network}
use travelmode.Tests.Daemon.{request}
use travelmode.Tests.Flows.{flow}
use travelmode.Tests.Client.{status}

abbrev request_byte : Request → Option (List ℕ)
request_byte subscribe = some (0 ∷ [])
request_byte get_status = some (1 ∷ [])
request_byte get_network = some (2 ∷ [])
request_byte get_top = some (3 ∷ [])
request_byte get_connections = some (4 ∷ [])
request_byte list_rules = some (5 ∷ [])
request_byte get_processes = some (6 ∷ [])
request_byte (add_rule _) = some (7 ∷ [])
request_byte (remove_rule _) = some (8 ∷ [])
request_byte _ = none

-- A message is told by its place in a list.
abbrev nth : {T : Type 0} → List T → List ℕ → Option T
nth table [] = none
nth table (n ∷ _) = get_elem? table n

abbrev request_table : List Request
request_table =
    subscribe
    ∷ get_status
    ∷ get_network
    ∷ get_top
    ∷ get_connections
    ∷ list_rules
    ∷ get_processes
    ∷ add_rule request
    ∷ remove_rule 1
    ∷ []

abbrev pub requests : Json Request
requests = record { to_vec = request_byte; from_slice = nth request_table }

abbrev event_byte : Event → Option (List ℕ)
event_byte (connection_opened _) = some (6 ∷ [])
event_byte (paused_changed _) = some (7 ∷ [])
event_byte _ = none

abbrev response_byte : Response → Option (List ℕ)
response_byte Response.ok = some (0 ∷ [])
response_byte (Response.status _) = some (1 ∷ [])
response_byte (Response.network _) = some (2 ∷ [])
response_byte (Response.top _) = some (3 ∷ [])
response_byte (Response.connections _) = some (4 ∷ [])
response_byte (Response.rules _) = some (5 ∷ [])
response_byte (Response.event e) = event_byte e
response_byte _ = none

abbrev response_table : List Response
response_table =
    Response.ok
    ∷ Response.status status
    ∷ Response.network no_network
    ∷ Response.top []
    ∷ Response.connections []
    ∷ Response.rules []
    ∷ Response.event (connection_opened flow)
    ∷ Response.event (paused_changed true)
    ∷ []

abbrev pub responses : Json Response
responses = record { to_vec = response_byte; from_slice = nth response_table }

pub subscribe-Travels : Travels requests subscribe
subscribe-Travels = record { body = 0 ∷ []; encodes = refl; decodes = refl; fits = omega arith }

pub add_rule-Travels : Travels requests (add_rule request)
add_rule-Travels = record { body = 7 ∷ []; encodes = refl; decodes = refl; fits = omega arith }

pub remove_rule-Travels : Travels requests (remove_rule 1)
remove_rule-Travels = record { body = 8 ∷ []; encodes = refl; decodes = refl; fits = omega arith }

pub ok-Travels : Travels responses Response.ok
ok-Travels = record { body = 0 ∷ []; encodes = refl; decodes = refl; fits = omega arith }

pub opened-Travels : Travels responses (Response.event (connection_opened flow))
opened-Travels = record { body = 6 ∷ []; encodes = refl; decodes = refl; fits = omega arith }

pub paused-Travels : Travels responses (Response.event (paused_changed true))
paused-Travels = record { body = 7 ∷ []; encodes = refl; decodes = refl; fits = omega arith }

abbrev pub errors : ErrorText
errors = record { io_text = λ e. text "i/o error"; json_text = text "bad json" }

-- A connection on which the other end answers with one byte.
abbrev pub answering : ℕ → Link
answering n = open_socket none (λ _. record { bytes = frame (n ∷ []); end = unexpected_eof })
