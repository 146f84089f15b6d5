-- ===== src/Gui/Thread.antt =====
-- The client thread of the graphical client: `spawn` of crates/gui/src/client.rs, which tries the
-- tray of crates/gui/src/tray.rs and then runs the sessions.
use travelmode.Base.{Bool, List, [], ◌∷◌, ◌++◌, Option, none, some, Text, text}
use travelmode.Gui.{command_failed, Wire}
use travelmode.Gui.Session.{Effect, sent, Episode, run}
use travelmode.Gui.Window.{client}
use travelmode.Gui.Tray.{Sent, to_app, try_spawn}

-- What the window is sent: the client's messages, and the tray's.
abbrev pub window_messages : List Effect → List Sent
window_messages [] = []
window_messages (sent m ∷ es) = to_app (client m) ∷ window_messages es
window_messages (Effect.tray_updated ∷ es) = window_messages es

-- The thread: whether the runtime can be built, and whether the tray registers.
unfoldable pub spawn : Wire → Option Text → Bool → List Episode → List Sent
unfolding run
spawn w (some e) registered eps =
    to_app (client (command_failed (text "internal error: " ++ e))) ∷ []
spawn w none registered eps =
    let (tray, sends) = try_spawn registered in sends ++ window_messages (run w tray eps)
