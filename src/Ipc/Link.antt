-- ===== src/Ipc/Link.antt =====
-- One request on a fresh connection, as both clients make it: `roundtrip` of
-- crates/cli/src/main.rs and `one_shot` of crates/gui/src/client.rs. A link is what connecting
-- gives: a refusal, or a socket, with the bytes after which writing to it fails and what the other
-- end sends back, by the bytes that it was sent.
use travelmode.Base.{ℕ, List, [], ◌++◌, Option, none, some, Text, text}
use travelmode.Base.Parsing.{show_ℕ}
use travelmode.Ipc.{
  Request, Response, IoError, IpcError, io, json, frame_too_large, closed, Outcome, success,
  failure, Json, Reader, Writer, read_frame, write_frame,
}

pub data Link : Type 0 where
  refused : Text → Link
  open_socket : Option ℕ → (List ℕ → Reader) → Link

-- What std and serde_json say of an error.
pub record ErrorText : Type 0 where
  pub io_text : IoError → Text
  pub json_text : Text

-- `Display` of `IpcError`.
abbrev pub show_error : ErrorText → IpcError → Text
show_error t (io e) = text "io error: " ++ t.io_text e
show_error t json = text "json error: " ++ t.json_text
show_error t (frame_too_large n) = text "frame too large (" ++ show_ℕ n ++ text " bytes)"
show_error t closed = text "connection closed"

pub data ExchangeError : Type 0 where
  connecting : Text → ExchangeError
  sending : IpcError → ExchangeError
  receiving : IpcError → ExchangeError

abbrev pub received : Outcome IpcError (Response × Reader) → Outcome ExchangeError Response
received (success (response, rest)) = success response
received (failure e) = failure (receiving e)

abbrev answered :
    Json Response → (List ℕ → Reader) → Option IpcError × Writer → Outcome ExchangeError Response
answered jr reply (some e, w) = failure (sending e)
answered jr reply (none, w) = received (read_frame jr (reply w.sent))

unfoldable pub exchange :
    Json Request → Json Response → Link → Request → Outcome ExchangeError Response
exchange jq jr (refused why) request = failure (connecting why)
exchange jq jr (open_socket room reply) request =
    answered jr reply (write_frame jq (record { sent = []; room = room }) request)
