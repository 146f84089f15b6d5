-- ===== src/Gui/Session.antt =====
-- The client thread's sessions with the daemon: `session` and `run` of crates/gui/src/client.rs.
-- A session is the sequence of what its `select!` completes.
pub mod Orderly
pub mod Follows
use travelmode.Base.{
  ℕ, Bool, true, false, List, [], ◌∷◌, ◌++◌, Option, none, some, Text, text, drop, if◌then◌else◌,
}
use travelmode.Types.{Event}
use travelmode.Ipc.{
  subscribe, Response, IpcError, Outcome, success, failure, Reader, Writer, read_frame, write_frame,
}
use travelmode.Ipc.Link.{Link, refused, open_socket, show_error}
use travelmode.Gui.{
  ClientMsg, connected, disconnected, event, Snapshot, GuiCmd, reconnect, refresh_tray_icon, Wire,
  Dial, cannot_connect, try_command, fetch,
}

-- What the thread does: a message to the window, or a request that the tray draw itself again.
pub data Effect : Type 0 where
  sent : ClientMsg → Effect
  tray_updated : Effect

-- What a turn of the loop completes: reading a frame, or a command, with the number of bytes that
-- the dropped read had taken from the stream, and the links for its request; or the window is gone.
pub data Turn : Type 0 where
  frame : Turn
  command : ℕ → GuiCmd → Dial → Turn
  gone : Turn

unfoldable pub messages : List Effect → List ClientMsg
messages [] = []
messages (sent m ∷ es) = m ∷ messages es
messages (tray_updated ∷ es) = messages es

unfoldable pub send_all : List ClientMsg → List Effect
send_all [] = []
send_all (m ∷ ms) = sent m ∷ send_all ms

-- Only an event reaches the window.
abbrev pub event_msg : Response → List Effect
event_msg (Response.event e) = sent (event e) ∷ []
event_msg other = []

-- The result is `none` while the session lasts.
abbrev pub Ended : Type 0
Ended = Option (Outcome Text (Unit {0}))

abbrev pub after : List Effect → List Effect × Ended → List Effect × Ended
after es (es', end) = (es ++ es', end)

-- A session reads the tray handle only to update it.
abbrev pub refresh_tray : Bool → List Effect
refresh_tray tray = if tray then tray_updated ∷ [] else []

module _ (w : Wire) (tray : Bool) where
  unfoldable pub handle_command : Dial → GuiCmd → List Effect
  unfolding try_command send_all
  handle_command dial reconnect = []
  handle_command dial refresh_tray_icon = refresh_tray tray
  handle_command dial cmd = send_all (try_command w dial cmd)

  -- The read is a fresh one in every turn: the bytes of a dropped one are lost.
  unfoldable pub session_loop : List Turn → Reader → List Effect × Ended
  unfolding handle_command
  session_loop [] r = ([], none)
  session_loop (gone ∷ ts) r = ([], some (success tt))
  session_loop (command taken cmd dial ∷ ts) r =
      after (handle_command dial cmd) (session_loop ts (record r { bytes = drop taken r.bytes }))
  session_loop (frame ∷ ts) r = elim (read_frame w.responses r) [
    | failure e ↦ ([], some (failure (text "event stream lost: " ++ show_error w.errors e)))
    | success (response, rest) ↦ after (event_msg response) (session_loop ts rest)
  ]

  abbrev streamed : Outcome Text Snapshot → List Turn → Reader → List Effect × Ended
  streamed (failure why) ts r = ([], some (failure why))
  streamed (success snapshot) ts r = after (sent (connected snapshot) ∷ []) (session_loop ts r)

  abbrev subscribed :
      Dial → List Turn → (List ℕ → Reader) → Option IpcError × Writer → List Effect × Ended
  subscribed dial ts reply (some e, out) =
      ([], some (failure (text "subscribe failed: " ++ show_error w.errors e)))
  subscribed dial ts reply (none, out) = streamed (fetch w dial) ts (reply out.sent)

  abbrev over : Dial → List Turn → Link → List Effect × Ended
  over dial ts (refused why) = ([], some (failure (cannot_connect w why)))
  over dial ts (open_socket room reply) =
      subscribed dial ts reply
        (write_frame w.requests (record { sent = []; room = room }) subscribe)

  unfoldable pub session : Dial → List Turn → List Effect × Ended
  unfolding session_loop fetch
  session dial ts = over dial ts (dial subscribe)

-- What completes while the thread waits to reconnect.
pub data Wait : Type 0 where
  elapsed : Wait
  issued : GuiCmd → Dial → Wait
  window_gone : Wait

-- How a wait ends, if it does.
pub data Waited : Type 0 where
  retry quit waiting : Waited

abbrev then_wait : List Effect → List Effect × Waited → List Effect × Waited
then_wait es (es', end) = (es ++ es', end)

-- One session, with the links it gets and its turns, and the wait after it.
pub record Episode : Type 0 where
  pub dial : Dial
  pub turns : List Turn
  pub waits : List Wait

module _ (w : Wire) (tray : Bool) where
  unfoldable pub backoff : List Wait → List Effect × Waited
  unfolding handle_command
  backoff [] = ([], waiting)
  backoff (elapsed ∷ ws) = ([], retry)
  backoff (window_gone ∷ ws) = ([], quit)
  backoff (issued reconnect dial ∷ ws) = ([], retry)
  backoff (issued cmd dial ∷ ws) = then_wait (handle_command w tray dial cmd) (backoff ws)

  abbrev next : List Effect × Waited → List Effect → List Effect
  next (es, retry) rest = es ++ rest
  next (es, quit) rest = es
  next (es, waiting) rest = es

  abbrev ended : List Effect × Ended → List Wait → List Effect → List Effect
  ended (es, none) ws rest = es
  ended (es, some _) ws rest = es ++ sent disconnected ∷ next (backoff ws) rest

  unfoldable pub run : List Episode → List Effect
  unfolding session backoff
  run [] = []
  run (ep ∷ eps) = ended (session w tray ep.dial ep.turns) ep.waits (run eps)
