-- ===== src/Gui/Session/Orderly.antt =====
-- The order of what the client thread of crates/gui/src/client.rs tells the window.
use mathlib.Core.Path.{subst}
use mathlib.Core.List.{append_assoc, append-nil}
use travelmode.Base.{
  ◌≡◌, refl, inl, inr, Bool, true, false, List, [], ◌∷◌, ◌++◌, Option, none, some, arith, Text,
}
use travelmode.Ipc.{
  subscribe, Response, IpcError, Outcome, success, failure, Reader, Writer, write_frame,
}
use travelmode.Ipc.Link.{Link, refused, open_socket}
use travelmode.Ipc.Frames.{read_cases}
use travelmode.Gui.{
  connected, disconnected, event, command_failed, Snapshot, GuiCmd, reconnect, refresh_tray_icon,
  set_paused, block_app, unblock, Wire, Dial, fetch, send_command, try_command, reported,
}
use travelmode.Gui.Session.{
  Effect, sent, tray_updated, Turn, frame, command, gone, Ended, event_msg, refresh_tray,
  handle_command, session_loop, streamed, subscribed, over, session, Wait, elapsed, issued,
  window_gone, retry, quit, waiting, Waited, backoff, ended, Episode, run, send_all, next,
}

-- Whether the window counts as connected, and what may follow: a snapshot while it is not, events
-- while it is.
abbrev pub Orderly : Bool → List Effect → Type 0
Orderly up [] = Unit
Orderly up (tray_updated ∷ es) = Orderly up es
Orderly up (sent (connected s) ∷ es) = (up ≡ false) × Orderly true es
Orderly up (sent disconnected ∷ es) = Orderly false es
Orderly up (sent (event e) ∷ es) = (up ≡ true) × Orderly up es
Orderly up (sent (command_failed why) ∷ es) = Orderly up es

module _ (w : Wire) (tray : Bool) where
  send_all-Orderly :
      (up : Bool) (o : Outcome Text (Unit {0})) (rest : List Effect)
      → Orderly up rest
      → Orderly up (send_all (reported w o) ++ rest)
  unfolding send_all
  send_all-Orderly up (success _) rest h = h
  send_all-Orderly up (failure _) rest h = h

  handle_command-Orderly :
      (up : Bool) (dial : Dial) (cmd : GuiCmd) (rest : List Effect)
      → Orderly up rest
      → Orderly up (handle_command w tray dial cmd ++ rest)
  unfolding handle_command try_command
  handle_command-Orderly up dial reconnect rest h = h
  handle_command-Orderly up dial refresh_tray_icon rest h =
      elim tray as (λ b. Orderly up (refresh_tray b ++ rest)) [ true ↦ h | false ↦ h ]
  handle_command-Orderly up dial (set_paused b) rest h =
      send_all-Orderly up (send_command w dial (set_paused b)) rest h
  handle_command-Orderly up dial (block_app n p) rest h =
      send_all-Orderly up (send_command w dial (block_app n p)) rest h
  handle_command-Orderly up dial (unblock id) rest h =
      send_all-Orderly up (send_command w dial (unblock id)) rest h

  handled-Orderly :
      (up : Bool) (dial : Dial) (cmd : GuiCmd) (es rest : List Effect)
      → Orderly up (es ++ rest)
      → Orderly up ((handle_command w tray dial cmd ++ es) ++ rest)
  handled-Orderly up dial cmd es rest h =
      rw (append_assoc (handle_command w tray dial cmd) es rest)
        (handle_command-Orderly up dial cmd (es ++ rest) h)

  event_msg-Orderly :
      (r : Response) (rest : List Effect) → Orderly true rest → Orderly true (event_msg r ++ rest)
  event_msg-Orderly (Response.event e) rest h = (refl, h)
  event_msg-Orderly Response.pong rest h = h
  event_msg-Orderly (Response.status _) rest h = h
  event_msg-Orderly (Response.network _) rest h = h
  event_msg-Orderly (Response.processes _) rest h = h
  event_msg-Orderly (Response.connections _) rest h = h
  event_msg-Orderly (Response.top _) rest h = h
  event_msg-Orderly (Response.rules _) rest h = h
  event_msg-Orderly Response.ok rest h = h
  event_msg-Orderly (Response.error _) rest h = h

  session_loop-Orderly :
      (ts : List Turn) (r : Reader) (rest : List Effect)
      → Orderly true rest
      → Orderly true ((session_loop w tray ts r).0 ++ rest)
  unfolding session_loop
  session_loop-Orderly [] r rest h = h
  session_loop-Orderly (gone ∷ ts) r rest h = h
  session_loop-Orderly (command taken cmd dial ∷ ts) r rest h =
      let r' : Reader = record r { bytes = travelmode.Base.drop taken r.bytes } in
      let es : List Effect = (session_loop w tray ts r').0 in
      handled-Orderly true dial cmd es rest (session_loop-Orderly ts r' rest h)
  session_loop-Orderly (frame ∷ ts) r rest h = elim (read_cases w.responses r) [
    | inl (e, f) ↦ rw (f, session_loop) h
    | inr (v, r', f) ↦
        let es : List Effect = (session_loop w tray ts r').0 in
        rw (f, session_loop, append_assoc (event_msg v) es rest)
          (event_msg-Orderly v (es ++ rest) (session_loop-Orderly ts r' rest h))
  ]

  streamed-Orderly :
      (o : Outcome Text Snapshot) (ts : List Turn) (r : Reader) (rest : List Effect)
      → Orderly false rest
      → Orderly true rest
      → Orderly false ((streamed w tray o ts r).0 ++ rest)
  streamed-Orderly (failure why) ts r rest h g = h
  streamed-Orderly (success s) ts r rest h g = (refl, session_loop-Orderly ts r rest g)

  over-Orderly :
      (dial : Dial) (ts : List Turn) (l : Link) (rest : List Effect)
      → Orderly false rest
      → Orderly true rest
      → Orderly false ((over w tray dial ts l).0 ++ rest)
  over-Orderly dial ts (refused why) rest h g = h
  over-Orderly dial ts (open_socket room reply) rest h g =
      written (write_frame w.requests (record { sent = []; room = room }) subscribe)
    where
      written :
          (o : Option IpcError × Writer)
          → Orderly false ((subscribed w tray dial ts reply o).0 ++ rest)
      written (some e, out) = h
      written (none, out) = streamed-Orderly (fetch w dial) ts (reply out.sent) rest h g

  session-Orderly :
      (dial : Dial) (ts : List Turn) (rest : List Effect)
      → Orderly false rest
      → Orderly true rest
      → Orderly false ((session w tray dial ts).0 ++ rest)
  unfolding session
  session-Orderly dial ts = over-Orderly dial ts (dial subscribe)

  backoff-Orderly :
      (ws : List Wait) (rest : List Effect)
      → Orderly false rest
      → Orderly false ((backoff w tray ws).0 ++ rest)
  unfolding backoff
  backoff-Orderly [] rest h = h
  backoff-Orderly (elapsed ∷ ws) rest h = h
  backoff-Orderly (window_gone ∷ ws) rest h = h
  backoff-Orderly (issued reconnect dial ∷ ws) rest h = h
  backoff-Orderly (issued refresh_tray_icon dial ∷ ws) rest h =
      handled-Orderly false dial refresh_tray_icon (backoff w tray ws).0 rest
        (backoff-Orderly ws rest h)
  backoff-Orderly (issued (set_paused b) dial ∷ ws) rest h =
      handled-Orderly false dial (set_paused b) (backoff w tray ws).0 rest
        (backoff-Orderly ws rest h)
  backoff-Orderly (issued (block_app n p) dial ∷ ws) rest h =
      handled-Orderly false dial (block_app n p) (backoff w tray ws).0 rest
        (backoff-Orderly ws rest h)
  backoff-Orderly (issued (unblock id) dial ∷ ws) rest h =
      handled-Orderly false dial (unblock id) (backoff w tray ws).0 rest (backoff-Orderly ws rest h)

  next-Orderly :
      (o : List Effect × Waited) (rest : List Effect)
      → ((k : List Effect) → Orderly false k → Orderly false (o.0 ++ k))
      → Orderly false rest
      → Orderly false (next w tray o rest)
  next-Orderly (es, retry) rest h g = h rest g
  next-Orderly (es, quit) rest h g = subst (Orderly false) (append-nil es) (h [] tt)
  next-Orderly (es, waiting) rest h g = subst (Orderly false) (append-nil es) (h [] tt)

  ended-Orderly :
      (o : List Effect × Ended) (ws : List Wait) (rest : List Effect)
      → ((k : List Effect) → Orderly false k → Orderly true k → Orderly false (o.0 ++ k))
      → Orderly false rest
      → Orderly false (ended w tray o ws rest)
  ended-Orderly (es, none) ws rest h g = subst (Orderly false) (append-nil es) (h [] tt tt)
  ended-Orderly (es, some _) ws rest h g =
      let g' : Orderly false (next w tray (backoff w tray ws) rest) =
        next-Orderly (backoff w tray ws) rest (backoff-Orderly ws) g in
      h (sent disconnected ∷ next w tray (backoff w tray ws) rest) g' g'

  -- Over any sessions and waits, whatever the daemon sends: the window gets a snapshot only while it
  -- counts as disconnected, and events only between a snapshot and the loss of that session.
  pub run-Orderly : (eps : List Episode) → Orderly false (run w tray eps)
  unfolding run
  run-Orderly [] = tt
  run-Orderly (ep ∷ eps) =
      ended-Orderly (session w tray ep.dial ep.turns) ep.waits (run w tray eps)
        (session-Orderly ep.dial ep.turns) (run-Orderly eps)
