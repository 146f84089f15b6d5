-- ===== src/Gui/Window.antt =====
-- The root component and the tray of the graphical client: crates/gui/src/app.rs and
-- crates/gui/src/tray.rs. The widgets are what was last written to them; the icons inside the pages
-- are left out.
pub mod Shown
use travelmode.Base.{
  ℕ, Bool, true, false, not, ◌&&◌, List, [], ◌∷◌, ◌++◌, Option, none, some, Text, text,
  if◌then◌else◌,
}
use travelmode.Types.{
  NetworkInfo, Event, connection_opened, connection_updated, connection_closed, process_started,
  process_exited, rule_added, rule_removed, paused_changed, network_changed,
}
use mathlib.Core.Option
use travelmode.Client.{ClientState, apply_event}
use travelmode.Client.Snapshot.{apply_snapshot, tick}
use travelmode.Gui.Tabs.{tab_icons}
use travelmode.Gui.Pages.{Formats}
use travelmode.Gui.Pages.Applications
use travelmode.Gui.Pages.Applications.{AppsPage}
use travelmode.Gui.Pages.Connections
use travelmode.Gui.Pages.Connections.{ConnsPage}
use travelmode.Gui.Pages.Overview.{
  DashboardPage, new_dashboard, update_dashboard, SettingsPage, new_settings, update_settings,
}
use travelmode.Gui.{
  Snapshot, ClientMsg, connected, disconnected, event, command_failed, GuiCmd, set_paused,
  reconnect, refresh_tray_icon,
}

pub data AppMsg : Type 0 where
  client : ClientMsg → AppMsg
  tick_msg retry theme_changed tray_open tray_quit : AppMsg
  tray_ready : Bool → AppMsg

pub record App : Type 0 where
  pub state : ClientState
  -- The commands sent to the client thread.
  pub cmds : List GuiCmd
  pub paused_flag : Bool
  pub dark_flag : Bool
  pub tray_available : Bool
  pub quitting : Bool
  pub banner_revealed : Bool
  pub subtitle : Text
  -- The icons of the tabs.
  pub tabs : List Text
  pub dashboard : DashboardPage
  pub apps_page : AppsPage
  pub conns_page : ConnsPage
  pub settings : SettingsPage
  pub toasts : List Text
  pub visible : Bool

abbrev pub default_state : ClientState
default_state = record {
  connected = false;
  status = none;
  network = none;
  rules = [];
  paused = false;
  apps = [];
  conns = [];
  conn_order = [];
  total_up = 0;
  total_down = 0;
  speed_up = 0;
  speed_down = 0;
  prev_total_up = 0;
  prev_total_down = 0;
}

-- The window as it opens, under the system's color scheme.
unfoldable pub init : Bool → App
init dark = record {
  state = default_state;
  cmds = [];
  paused_flag = false;
  dark_flag = dark;
  tray_available = false;
  quitting = false;
  banner_revealed = true;
  subtitle = [];
  tabs = tab_icons dark;
  dashboard = new_dashboard;
  apps_page = Applications.new_page;
  conns_page = Connections.new_page;
  settings = new_settings;
  toasts = [];
  visible = true;
}

abbrev or_else : Option Text → Option Text → Option Text
or_else none b = b
or_else (some a) b = some a

abbrev network_name : Option NetworkInfo → Text
network_name none = []
network_name (some n) = Option.get_or (or_else n.ssid n.primary_interface) []

abbrev pub subtitle_of : ClientState → Text
subtitle_of s = if not s.connected then text "Offline" else network_name s.network

unfoldable pub refresh : Formats → App → App
refresh f app = record app {
  banner_revealed = not app.state.connected;
  subtitle = subtitle_of app.state;
  tabs = tab_icons app.dark_flag;
  dashboard = update_dashboard f app.state app.dashboard;
  apps_page = Applications.update f app.state app.apps_page;
  conns_page = Connections.update f app.state app.conns_page;
  settings = update_settings app.state app.settings;
}

abbrev pub snapshot_state : Snapshot → ClientState → ClientState
snapshot_state s = apply_snapshot s.status s.network s.top s.conns s.rules

abbrev pub heard_pause : Event → Bool → Bool
heard_pause (paused_changed paused) flag = paused
heard_pause other flag = flag

unfoldable pub update : Formats → AppMsg → App → App
unfolding refresh
update f (client (connected snapshot)) app = refresh f (record app {
  paused_flag = snapshot.status.paused;
  state =
      apply_snapshot snapshot.status snapshot.network snapshot.top snapshot.conns snapshot.rules
        app.state;
})
update f (client disconnected) app =
    refresh f (record app { state = record app.state { connected = false } })
update f (client (event e)) app =
    refresh f
      (record app { paused_flag = heard_pause e app.paused_flag; state = apply_event e app.state })
update f (client (command_failed message)) app = record app { toasts = app.toasts ++ message ∷ [] }
update f tick_msg app = refresh f (record app { state = tick app.state })
update f retry app = record app { cmds = app.cmds ++ reconnect ∷ [] }
update f theme_changed app = refresh f app
update f tray_open app = record app { visible = true }
update f tray_quit app = record app { quitting = true }
update f (tray_ready ok) app = record app { tray_available = ok }

-- The callbacks: the window's close button, the color scheme, and the tray's menu.
pub data Callback : Type 0 where
  close_request : Callback
  dark_notify : Bool → Callback
  pause_filtering : Callback

-- Closing hides the window while there is a tray; the flag says whether it really closes.
unfoldable pub close : App → App × Bool
close app =
    if app.tray_available && not app.quitting
    then (record app { visible = false }, false)
    else (app, true)

-- The scheme's message is handled later.
unfoldable pub notify_dark : Bool → App → App × List AppMsg
notify_dark dark app =
    (record app { dark_flag = dark; cmds = app.cmds ++ refresh_tray_icon ∷ [] }, theme_changed ∷ [])

unfoldable pub toggle_pause : App → App
toggle_pause app = record app { cmds = app.cmds ++ set_paused (not app.paused_flag) ∷ [] }

-- A message is handled, or a callback runs; a message that a callback sends comes as its own step.
pub data Input : Type 0 where
  message : AppMsg → Input
  callback : Callback → Input

unfoldable pub call : Callback → App → App
unfolding close notify_dark toggle_pause
call close_request app = (close app).0
call (dark_notify dark) app = (notify_dark dark app).0
call pause_filtering app = toggle_pause app

unfoldable pub handle_all : Formats → List Input → App → App
unfolding update call
handle_all f [] app = app
handle_all f (message m ∷ is) app = handle_all f is (update f m app)
handle_all f (callback c ∷ is) app = handle_all f is (call c app)
