-- ===== src/Gui/Session/Follows.antt =====
-- The window's state after a session with the daemon: crates/gui/src/client.rs and
-- crates/gui/src/app.rs together with the daemon's event stream.

use travelmode.Base.{
  ℕ, zero, suc, ◌≡◌, ◌∙◌, ap, refl, Bool, true, false, List, [], ◌∷◌, ◌++◌, none, arith, Text, All,
  length,
}
use travelmode.Types.{Event}
use travelmode.Ipc.{subscribe, Response, IoError, Outcome, success, failure, Reader}
use travelmode.Ipc.Link.{open_socket}
use travelmode.Ipc.Frames.{Travels, working, write_frame-Travels, read_frame-Travels}
use travelmode.Server.{Received, stream_events}
use travelmode.Server.Stream.{delivered, frames, stream_events-sent}
use travelmode.Client.{ClientState, apply_event}
use travelmode.Gui.{
  connected, event, Snapshot, GuiCmd, reconnect, refresh_tray_icon, set_paused, block_app, unblock,
  Wire, Dial, fetch, send_command, try_command, reported,
}
use travelmode.Gui.Session.{
  Effect, sent, tray_updated, Turn, frame, command, gone, handle_command, session_loop, session,
  send_all,
}
use travelmode.Gui.Pages.{Formats}
use travelmode.Gui.Window.{App, client, update, snapshot_state, refresh}

-- The window handles what the client thread sends.
unfoldable pub receive : Formats → List Effect → App → App
unfolding update
receive f [] app = app
receive f (tray_updated ∷ es) app = receive f es app
receive f (sent m ∷ es) app = receive f es (update f (client m) app)

unfoldable pub apply_events : List Event → ClientState → ClientState
apply_events [] s = s
apply_events (e ∷ es) s = apply_events es (apply_event e s)

-- So many frames are read in these turns, and commands come between the reads: no read that has
-- begun is dropped.
abbrev pub Undisturbed : List Turn → ℕ → Type 0
Undisturbed [] n = n ≡ 0
Undisturbed (frame ∷ ts) zero = ⊥
Undisturbed (frame ∷ ts) (suc n) = Undisturbed ts n
Undisturbed (command taken cmd dial ∷ ts) n = (taken ≡ 0) × Undisturbed ts n
Undisturbed (gone ∷ ts) n = ⊥

receive-append :
    (f : Formats) (a b : List Effect) (app : App)
    → receive f (a ++ b) app ≡ receive f b (receive f a app)
unfolding receive
receive-append f [] b app = refl
receive-append f (tray_updated ∷ a) b app = receive-append f a b app
receive-append f (sent m ∷ a) b app = receive-append f a b (update f (client m) app)

-- Commands leave the window's state as it is.
receive-reported-state :
    (f : Formats) (w : Wire) (o : Outcome Text (Unit {0})) (app : App)
    → (receive f (send_all (reported w o)) app).state ≡ app.state
unfolding receive send_all update
receive-reported-state f w (success _) app = refl
receive-reported-state f w (failure why) app = refl

receive-handle_command-state :
    (f : Formats) (w : Wire) (tray : Bool) (dial : Dial) (cmd : GuiCmd) (app : App)
    → (receive f (handle_command w tray dial cmd) app).state ≡ app.state
unfolding handle_command try_command receive
receive-handle_command-state f w tray dial reconnect app = refl
receive-handle_command-state f w true dial refresh_tray_icon app = refl
receive-handle_command-state f w false dial refresh_tray_icon app = refl
receive-handle_command-state f w tray dial (set_paused b) app =
    receive-reported-state f w (send_command w dial (set_paused b)) app
receive-handle_command-state f w tray dial (block_app n p) app =
    receive-reported-state f w (send_command w dial (block_app n p)) app
receive-handle_command-state f w tray dial (unblock id) app =
    receive-reported-state f w (send_command w dial (unblock id)) app

receive-event-state :
    (f : Formats) (e : Event) (app : App)
    → (update f (client (event e)) app).state ≡ apply_event e app.state
unfolding update refresh
receive-event-state f e app = refl

module _ (f : Formats) (w : Wire) (tray : Bool) (end : IoError) where
  -- The stream of the events, to its end.
  abbrev stream : (es : List Event) → All (λ e. Travels w.responses (Response.event e)) es → Reader
  stream es t = record { bytes = frames w.responses es t; end = end }

  session_loop-follows :
      (ts : List Turn) (es : List Event) (t : All (λ e. Travels w.responses (Response.event e)) es)
      (app : App)
      → Undisturbed ts (length es)
      → App.state (receive f (session_loop w tray ts (stream es t)).0 app)
        ≡ apply_events es app.state
  unfolding session_loop apply_events frames receive
  session_loop-follows [] [] t app h = refl
  session_loop-follows [] (e ∷ es) t app h = absurd (omega (arith, h))
  session_loop-follows (gone ∷ ts) es t app h = absurd h
  session_loop-follows (frame ∷ ts) [] t app h = absurd h
  session_loop-follows (frame ∷ ts) (e ∷ es) (t, ts') app h =
      rw
        (
          read_frame-Travels w.responses (Response.event e) (frames w.responses es ts') end t,
          session_loop,
        )
        (session_loop-follows ts es ts' (update f (client (event e)) app) h
          ∙ ap (apply_events es) (receive-event-state f e app))
  session_loop-follows (command taken cmd dial ∷ ts) es t app (e, h) =
      let done : List Effect = handle_command w tray dial cmd in
      rw (e, receive-append f done (session_loop w tray ts (stream es t)).0 app)
        (session_loop-follows ts es t (receive f done app) h
          ∙ ap (apply_events es) (receive-handle_command-state f w tray dial cmd app))

-- A session in which the snapshot is fetched and the subscription carries what the daemon streams:
-- the window ends up with the snapshot and every event that reached the subscription folded in, in
-- order, whatever commands run between the reads.
pub session-follows :
    (f : Formats) (w : Wire) (tray : Bool) (dial : Dial) (ts : List Turn) (rx : List Received)
    (end : IoError) (snapshot : Snapshot) (app : App)
    → Travels w.requests subscribe
    → All (λ e. Travels w.responses (Response.event e)) (delivered rx)
    → dial subscribe
      ≡ open_socket none (λ _. record {
        bytes = (stream_events w.requests w.responses (working []) rx).1.sent;
        end = end;
      })
    → fetch w dial ≡ success snapshot
    → Undisturbed ts (length (delivered rx))
    → App.state (receive f (session w tray dial ts).0 app)
      ≡ apply_events (delivered rx) (snapshot_state snapshot app.state)
unfolding session receive update refresh
session-follows f w tray dial ts rx end snapshot app tr t d g u =
    rw
      (
        d,
        write_frame-Travels w.requests subscribe [] tr,
        g,
        stream_events-sent w.responses w.requests rx [] t,
      )
      (session_loop-follows f w tray end ts (delivered rx) t
        (update f (client (connected snapshot)) app) u)
