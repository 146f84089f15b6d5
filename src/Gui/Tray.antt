-- ===== src/Gui/Tray.antt =====
-- The tray icon: crates/gui/src/tray.rs. ksni is external: a menu is the list of its items, and an
-- item's callback is what it sends, by the flags at the time of the click.
use travelmode.Base.{
  ℕ, ◌≡◌, ap, Bool, true, not, ◌&&◌, List, [], ◌∷◌, ◌++◌, Text, text, arith, if◌then◌else◌,
}
use travelmode.Ipc.{Outcome}
use travelmode.Gui.{GuiCmd, set_paused}
use travelmode.Gui.Icons.{Image, Icon, icons, sizes}
use travelmode.Gui.Pages.{Formats}
use travelmode.Gui.Window.{
  AppMsg, tray_open, tray_quit, tray_ready, App, init, update, close, Input, handle_all,
}
use travelmode.Gui.Window.Shown.{Shows, init-IsShown}

-- What a callback sends: a message to the window, or a command to the client thread.
pub data Sent : Type 0 where
  to_app : AppMsg → Sent
  to_client : GuiCmd → Sent

pub data Action : Type 0 where
  open_window pause quit : Action

pub data MenuItem : Type 0 where
  standard : Text → Action → MenuItem
  checkmark : Text → Bool → Action → MenuItem
  separator : MenuItem

-- The tray's title, and the icon name for hosts that prefer a themed one.
abbrev pub title : Text
title = text "Travel Mode"

abbrev pub icon_name : Text
icon_name = text "com.github.missingfoot.travelmode"

-- The icons of the variant that the color scheme asks for.
abbrev pub icon_pixmap :
    (List ℕ → Outcome Text Image) → List (List ℕ) → List (List ℕ) → Bool → List Icon
icon_pixmap decode dark_pngs light_pngs dark =
    icons decode (if dark then dark_pngs else light_pngs) sizes

unfoldable pub menu : Bool → List MenuItem
menu paused =
    standard (text "Open Travel Mode") open_window
    ∷ checkmark (text "Pause Filtering") paused pause
    ∷ separator
    ∷ standard (text "Quit") quit
    ∷ []

-- The callback of an item, with the flag as it is at the click.
unfoldable pub choose : Bool → Action → List Sent
choose paused open_window = to_app tray_open ∷ []
choose paused pause = to_client (set_paused (not paused)) ∷ []
choose paused quit = to_app tray_quit ∷ []

-- A left click.
abbrev pub activate : List Sent
activate = to_app tray_open ∷ []

-- Whether the session has a tray to update, and what the window is told.
abbrev pub try_spawn : Bool → Bool × List Sent
try_spawn registered = (registered, to_app (tray_ready registered) ∷ [])

-- The window and its command channel after a callback.
unfoldable pub deliver : Formats → List Sent → App → App
unfolding update
deliver f [] app = app
deliver f (to_app m ∷ sends) app = deliver f sends (update f m app)
deliver f (to_client cmd ∷ sends) app = deliver f sends (record app { cmds = app.cmds ++ cmd ∷ [] })

-- A menu that is made at any time has a check mark that says whether filtering is paused, and choosing
-- that item asks the daemon for the opposite.
pub menu-pause :
    (f : Formats) (dark : Bool) (is : List Input)
    → (menu (handle_all f is (init dark)).paused_flag
        ≡ standard (text "Open Travel Mode") open_window
          ∷ checkmark (text "Pause Filtering") (handle_all f is (init dark)).state.paused pause
          ∷ separator
          ∷ standard (text "Quit") quit
          ∷ [])
      × (App.cmds (
            deliver f
              (choose (handle_all f is (init dark)).paused_flag pause)
              (handle_all f is (init dark)))
          ≡ App.cmds (handle_all f is (init dark))
            ++ set_paused (not (handle_all f is (init dark)).state.paused) ∷ [])
unfolding menu choose deliver
menu-pause f dark is =
    let app : App = handle_all f is (init dark) in
    let flag : app.paused_flag ≡ app.state.paused = Shows.flag (init-IsShown f dark is) in
    (ap menu flag, ap (λ b. app.cmds ++ set_paused (not b) ∷ []) flag)

-- Closing the window ends the program unless the tray has been registered, and always ends it once
-- Quit was chosen in the tray.
pub try_spawn-close :
    (f : Formats) (registered paused : Bool) (app : App)
    → ((close (deliver f (try_spawn registered).1 app)).1 ≡ not (registered && not app.quitting))
      × ((close (deliver f (choose paused quit) (deliver f (try_spawn registered).1 app))).1 ≡ true)
unfolding close deliver choose update
try_spawn-close f registered paused app = (ground arith, ground arith)
