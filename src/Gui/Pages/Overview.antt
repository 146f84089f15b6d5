-- ===== src/Gui/Pages/Overview.antt =====
-- The texts of the dashboard and of the settings page: crates/gui/src/pages/dashboard.rs and
-- crates/gui/src/pages/settings.rs.
use mathlib.Core.Option
use travelmode.Base.{
  Bool, false, List, [], ◌∷◌, ◌++◌, map, Option, none, some, Text, text, if◌then◌else◌,
}
use travelmode.Base.Parsing.{show_ℕ}
use travelmode.Types.{IpAddr, NetworkInfo, Status}
use travelmode.Client.{ClientState}
use travelmode.Client.Snapshot.{active_app_count, blocked_app_count}
use travelmode.Gui.{GuiCmd, set_paused}
use travelmode.Gui.Pages.{Formats}
use travelmode.Gui.Fmt.{human_bytes, human_speed, human_uptime}

pub record DashboardPage : Type 0 where
  pub network_row : Text
  pub metered_badge : Bool
  pub gateway_row : Text
  pub dns_row : Text
  pub down_speed : Text
  pub up_speed : Text
  pub session_row : Text
  pub active_row : Text
  pub blocked_row : Text

abbrev dash : Text
dash = text "—"

-- The page before its first update.
abbrev pub new_dashboard : DashboardPage
new_dashboard = record {
  network_row = [];
  metered_badge = false;
  gateway_row = [];
  dns_row = [];
  down_speed = dash;
  up_speed = dash;
  session_row = [];
  active_row = [];
  blocked_row = [];
}

abbrev comma_separated : List Text → Text
comma_separated [] = []
comma_separated (t ∷ []) = t
comma_separated (t ∷ u ∷ ts) = t ++ text ", " ++ comma_separated (u ∷ ts)

abbrev or_else : Option Text → Option Text → Option Text
or_else none b = b
or_else (some a) b = some a

module _ (f : Formats) where
  abbrev dns_text : List IpAddr → Text
  dns_text [] = dash
  dns_text (ip ∷ ips) = comma_separated (map f.show_ip (ip ∷ ips))

  abbrev with_network : Option NetworkInfo → DashboardPage → DashboardPage
  with_network (some net) page = record page {
    network_row = Option.get_or (or_else net.ssid net.primary_interface) (text "Not connected");
    metered_badge = Option.get_or net.metered false;
    gateway_row = Option.get_or (Option.map f.show_ip net.gateway) dash;
    dns_row = dns_text net.dns_servers;
  }
  with_network none page = record page {
    network_row = dash;
    metered_badge = false;
    gateway_row = dash;
    dns_row = dash;
  }

  unfoldable pub update_dashboard : ClientState → DashboardPage → DashboardPage
  unfolding active_app_count blocked_app_count
  update_dashboard state page = with_network state.network (record page {
    down_speed = human_speed f.floats state.speed_down;
    up_speed = human_speed f.floats state.speed_up;
    session_row =
        text "↓ "
        ++ human_bytes f.floats state.total_down
        ++ text " · ↑ "
        ++ human_bytes f.floats state.total_up;
    active_row = show_ℕ (active_app_count state);
    blocked_row = show_ℕ (blocked_app_count state);
  })

pub record SettingsPage : Type 0 where
  pub version_row : Text
  pub uptime_row : Text
  pub filtering_row : Text
  pub pause_icon : Text
  pub pause_switch : Bool

abbrev pub new_settings : SettingsPage
new_settings = record {
  version_row = [];
  uptime_row = [];
  filtering_row = [];
  pause_icon = text "pause";
  pause_switch = false;
}

abbrev with_status : Option Status → SettingsPage → SettingsPage
with_status (some status) page = record page {
  version_row = status.version;
  uptime_row = human_uptime status.uptime_secs;
  filtering_row = if status.filtering_active then text "Active" else text "Inactive";
}
with_status none page = record page {
  version_row = dash;
  uptime_row = dash;
  filtering_row = text "Unreachable";
}

unfoldable pub update_settings : ClientState → SettingsPage → SettingsPage
unfolding human_uptime
update_settings state page = with_status state.status (record page {
  pause_icon = if state.paused then text "play" else text "pause";
  pause_switch = state.paused;
})

-- The user flips the switch; the page's own changes of it send nothing.
abbrev pub pause_command : Bool → GuiCmd
pause_command active = set_paused active
