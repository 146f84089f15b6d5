-- ===== src/Cli/Watch.antt =====
-- `watch` of crates/cli/src/main.rs: the events of the daemon as lines, until the stream ends.
pub mod Total
use travelmode.Base.{
  ℕ, zero, suc, List, [], ◌∷◌, ◌++◌, Option, none, some, Text, text, FilePath, length,
}
use travelmode.Types.{Event}
use travelmode.Ipc.{
  Request, subscribe, Response, pong, status, network, processes, connections, top, rules, ok,
  error, event, IpcError, Outcome, success, failure, Json, Reader, Writer, read_frame, write_frame,
}
use travelmode.Ipc.Link.{Link, refused, open_socket, ErrorText, show_error}

abbrev pub no_connection : FilePath → Text → Text
no_connection socket why =
    text "cannot connect to "
    ++ socket.display
    ++ text ": "
    ++ why
    ++ text " — is travelmoded running?"

-- A response that is no event is skipped.
abbrev pub event_of : Response → List Event → List Event
event_of (event e) es = e ∷ es
event_of pong es = es
event_of (status s) es = es
event_of (network n) es = es
event_of (processes ps) es = es
event_of (connections cs) es = es
event_of (top us) es = es
event_of (rules rs) es = es
event_of ok es = es
event_of (error m) es = es

abbrev and_then : Response → Option (List Event) → Option (List Event)
and_then response none = none
and_then response (some es) = some (event_of response es)

-- The events that are printed, `none` when the fuel runs out. Every frame takes four bytes at
-- least, so the number of bytes is enough.
unfoldable pub watch_loop : Json Response → ℕ → Reader → Option (List Event)
watch_loop jr zero r = none
watch_loop jr (suc fuel) r = elim (read_frame jr r) [
  | failure e ↦ some []
  | success (response, rest) ↦ and_then response (watch_loop jr fuel rest)
]

unfoldable pub watch : Json Response → Reader → Option (List Event)
unfolding watch_loop
watch jr r = watch_loop jr (suc (length r.bytes)) r

ended : Option (List Event) → Option (List Event × Outcome Text (Unit {0}))
ended none = none
ended (some es) = some (es, success tt)

subscribed :
    Json Response
    → ErrorText
    → (List ℕ → Reader)
    → Option IpcError × Writer
    → Option (List Event × Outcome Text (Unit {0}))
unfolding ended watch
subscribed jr t reply (some e, w) =
    some ([], failure (text "failed to subscribe: " ++ show_error t e))
subscribed jr t reply (none, w) = ended (watch jr (reply w.sent))

-- The whole command: the events printed, and its result.
unfoldable pub follow :
    Json Request
    → Json Response
    → ErrorText
    → FilePath
    → Link
    → Option (List Event × Outcome Text (Unit {0}))
unfolding subscribed
follow jq jr t socket (refused why) = some ([], failure (no_connection socket why))
follow jq jr t socket (open_socket room reply) =
    subscribed jr t reply (write_frame jq (record { sent = []; room = room }) subscribe)
