-- ===== src/Gui/Window/Shown.antt =====
-- What the window of crates/gui/src/app.rs shows is what its state says.
use mathlib.Core.Path.{subst}
use travelmode.Base.{
  ◌≡◌, refl, inl, inr, Bool, false, not, List, [], ◌∷◌, Text, arith, ◌∙◌, ap, sym, ◌&&◌, ◌||◌,
  Option-cases, true, text_key,
}
use travelmode.Types.{
  Event, connection_opened, connection_updated, connection_closed, process_started, process_exited,
  rule_added, rule_removed, paused_changed, network_changed,
}
use travelmode.Client.{
  ClientState, apply_event, upsert_conn, remove_conn, refresh_rule_flags, enforce_conn_cap,
}
use travelmode.Client.Snapshot.{apply_snapshot, tick, add_conns, add_conn, settle}
use travelmode.Base.Map
use travelmode.Client.Apps
use travelmode.Client.Conns
use travelmode.Gui.Pages.{Formats}
use travelmode.Gui.Pages.Applications.{AppsPage}
use travelmode.Gui.Pages.Applications.Placed.{InPlace}
use travelmode.Gui.Pages.Applications.Shown as Applications
use travelmode.Gui.Pages.Connections.{ConnsPage}
use travelmode.Gui.Pages.Connections.Shown as Connections
use travelmode.Gui.Pages.Overview.{DashboardPage, update_dashboard, SettingsPage, update_settings}
use travelmode.Gui.{Snapshot, connected, disconnected, event, command_failed}
use travelmode.Gui.Window.{
  AppMsg, client, tick_msg, retry, theme_changed, tray_open, tray_quit, tray_ready, App,
  subtitle_of, init, refresh, update, Callback, close_request, dark_notify, pause_filtering, close,
  notify_dark, toggle_pause, Input, message, callback, call, handle_all, heard_pause,
  snapshot_state,
}

remove_conn-paused : (k : Text) (s : ClientState) → (remove_conn k s).paused ≡ s.paused
unfolding remove_conn
remove_conn-paused k s = ground arith

add_conns-paused : (cs : List _) (s : ClientState) → (add_conns cs s).paused ≡ s.paused
unfolding add_conns
add_conns-paused [] s = refl
add_conns-paused (c ∷ cs) s = add_conns-paused cs (add_conn c s)

apply_event-paused :
    (e : Event) (s : ClientState) → (apply_event e s).paused ≡ heard_pause e s.paused
unfolding apply_event upsert_conn enforce_conn_cap refresh_rule_flags
apply_event-paused (connection_opened c) s = refl
apply_event-paused (connection_updated c) s = refl
apply_event-paused (connection_closed k) s = remove_conn-paused k s
apply_event-paused (process_started p) s = refl
apply_event-paused (process_exited p) s = refl
apply_event-paused (rule_added r) s = refl
apply_event-paused (rule_removed i) s = refl
apply_event-paused (paused_changed b) s = refl
apply_event-paused (network_changed n) s = refl

snapshot-paused : (s : Snapshot) (c : ClientState) → (snapshot_state s c).paused ≡ s.status.paused
unfolding apply_snapshot settle refresh_rule_flags
snapshot-paused s c = add_conns-paused s.conns _

-- What is shown of a state: the banner and the tray's flag always; the subtitle and the four pages
-- once they have been drawn. That the dashboard and the settings are those of the state says that
-- nothing is left of what they showed before.
pub record Shows (f : Formats) (drawn : Bool) (s : ClientState) (banner_revealed paused_flag : Bool)
    (subtitle : Text) (dashboard : DashboardPage) (apps_page : AppsPage) (conns_page : ConnsPage)
    (settings : SettingsPage) : Type 0 where
  pub banner : banner_revealed ≡ not s.connected
  pub flag : paused_flag ≡ s.paused
  pub places : InPlace apps_page
  pub title : drawn ≡ true → subtitle ≡ subtitle_of s
  pub overview : drawn ≡ true → (p : DashboardPage) → dashboard ≡ update_dashboard f s p
  pub apps :
      drawn ≡ true
      → (k : Text) → Applications.Agrees f (Map.get k s.apps) (Map.get k apps_page.rows)
  pub conns :
      drawn ≡ true
      → (k : Text) → Connections.Agrees f (Map.get k s.conns) (Map.get k conns_page.rows)
  pub daemon : drawn ≡ true → (p : SettingsPage) → settings ≡ update_settings s p

abbrev pub IsShown : Formats → Bool → App → Type 0
IsShown f drawn app =
    Shows f drawn app.state app.banner_revealed app.paused_flag app.subtitle app.dashboard
      app.apps_page app.conns_page app.settings

abbrev AreDistinct : ClientState → Type 0
AreDistinct s = Map.Distinct s.apps × Map.Distinct s.conns

-- Whether the window is drawn at this step.
abbrev pub draws : Input → Bool
draws (message (client (connected snapshot))) = true
draws (message (client disconnected)) = true
draws (message (client (event e))) = true
draws (message (client (command_failed m))) = false
draws (message tick_msg) = true
draws (message theme_changed) = true
draws (message other) = false
draws (callback c) = false

abbrev pub drawn_after : Bool → List Input → Bool
drawn_after drawn [] = drawn
drawn_after drawn (i ∷ is) = drawn_after (draws i || drawn) is

update_dashboard-fresh :
    (f : Formats) (s : ClientState) (p q : DashboardPage)
    → update_dashboard f s p ≡ update_dashboard f s q
unfolding update_dashboard
update_dashboard-fresh f s p q = elim (Option-cases s.network) [
  | inl e ↦ rw e refl
  | inr (n, e) ↦ rw e refl
]

update_settings-fresh :
    (s : ClientState) (p q : SettingsPage) → update_settings s p ≡ update_settings s q
unfolding update_settings
update_settings-fresh s p q = elim (Option-cases s.status) [
  | inl e ↦ rw e refl
  | inr (n, e) ↦ rw e refl
]

module _ (f : Formats) where
  refresh-IsShown :
      (app : App)
      → app.paused_flag ≡ app.state.paused
      → AreDistinct app.state
      → InPlace app.apps_page
      → IsShown f true (refresh f app)
  unfolding refresh
  refresh-IsShown app h d p = record {
    banner = refl;
    flag = h;
    places = Applications.update-InPlace f app.state app.apps_page p;
    title = λ _. refl;
    overview = λ _ q. update_dashboard-fresh f app.state app.dashboard q;
    apps = λ _. Applications.update-Agrees f app.state app.apps_page d.0;
    conns = λ _. Connections.update-Agrees f app.state app.conns_page d.1;
    daemon = λ _ q. update_settings-fresh app.state app.settings q;
  }

  -- Drawing again after a change of the state keeps what is shown true.
  redrawn-IsShown :
      (app : App) (flag : Bool) (s : ClientState)
      → flag ≡ s.paused
      → AreDistinct s
      → InPlace app.apps_page
      → IsShown f true (refresh f (record app { paused_flag = flag; state = s }))
  redrawn-IsShown app flag s h d p =
      refresh-IsShown (record app { paused_flag = flag; state = s }) h d p

  snapshot-AreDistinct : (s : Snapshot) (c : ClientState) → AreDistinct (snapshot_state s c)
  snapshot-AreDistinct s c = (
    Apps.apply_snapshot-Distinct s.status s.network s.top s.conns s.rules c,
    Conns.apply_snapshot-Distinct s.status s.network s.top s.conns s.rules c,
  )

  update-AreDistinct :
      (m : AppMsg) (app : App) → AreDistinct app.state → AreDistinct (update f m app).state
  unfolding update refresh
  update-AreDistinct (client (connected s)) app d = snapshot-AreDistinct s app.state
  update-AreDistinct (client disconnected) app d = d
  update-AreDistinct (client (event e)) app d =
      (Apps.apply_event-Distinct e app.state d.0, Conns.apply_event-Distinct e app.state d.1)
  update-AreDistinct (client (command_failed m)) app d = d
  update-AreDistinct tick_msg app d =
      (Apps.tick-Distinct app.state d.0, Conns.tick-Distinct app.state d.1)
  update-AreDistinct retry app d = d
  update-AreDistinct theme_changed app d = d
  update-AreDistinct tray_open app d = d
  update-AreDistinct tray_quit app d = d
  update-AreDistinct (tray_ready ok) app d = d

  update-IsShown :
      (m : AppMsg) (drawn : Bool) (app : App)
      → AreDistinct app.state
      → IsShown f drawn app
      → IsShown f (draws (message m) || drawn) (update f m app)
  unfolding update tick
  update-IsShown (client (connected s)) drawn app d h =
      redrawn-IsShown app s.status.paused (snapshot_state s app.state)
        (ground (arith, snapshot-paused s app.state)) (snapshot-AreDistinct s app.state) h.places
  update-IsShown (client disconnected) drawn app d h =
      redrawn-IsShown app app.paused_flag (record app.state { connected = false }) h.flag d h.places
  update-IsShown (client (event e)) drawn app d h =
      redrawn-IsShown app (heard_pause e app.paused_flag) (apply_event e app.state)
        (ap (heard_pause e) h.flag ∙ sym (apply_event-paused e app.state))
        (Apps.apply_event-Distinct e app.state d.0, Conns.apply_event-Distinct e app.state d.1)
        h.places
  update-IsShown (client (command_failed m)) drawn app d h = h
  update-IsShown tick_msg drawn app d h =
      redrawn-IsShown app app.paused_flag (tick app.state) h.flag
        (Apps.tick-Distinct app.state d.0, Conns.tick-Distinct app.state d.1) h.places
  update-IsShown retry drawn app d h = h
  update-IsShown theme_changed drawn app d h = refresh-IsShown app h.flag d h.places
  update-IsShown tray_open drawn app d h = h
  update-IsShown tray_quit drawn app d h = h
  update-IsShown (tray_ready ok) drawn app d h = h

  close-IsShown : (drawn : Bool) (app : App) → IsShown f drawn app → IsShown f drawn (close app).0
  unfolding close
  close-IsShown drawn app h = shown (app.tray_available && not app.quitting) refl
    where
      shown :
          (hides : Bool)
          → (app.tray_available && not app.quitting) ≡ hides
          → IsShown f drawn (close app).0
      shown true e = rw (e, close) h
      shown false e = rw (e, close) h

  call-IsShown :
      (c : Callback) (drawn : Bool) (app : App) → IsShown f drawn app → IsShown f drawn (call c app)
  unfolding call close notify_dark toggle_pause
  call-IsShown close_request drawn app h = close-IsShown drawn app h
  call-IsShown (dark_notify dark) drawn app h = h
  call-IsShown pause_filtering drawn app h = h

  call-state : (c : Callback) (app : App) → (call c app).state ≡ app.state
  unfolding call close notify_dark toggle_pause
  call-state close_request app = ground arith
  call-state (dark_notify dark) app = refl
  call-state pause_filtering app = refl

  handle_all-IsShown :
      (is : List Input) (drawn : Bool) (app : App)
      → AreDistinct app.state
      → IsShown f drawn app
      → IsShown f (drawn_after drawn is) (handle_all f is app)
  unfolding handle_all
  handle_all-IsShown [] drawn app d h = h
  handle_all-IsShown (message m ∷ is) drawn app d h =
      handle_all-IsShown is (draws (message m) || drawn) (update f m app)
        (update-AreDistinct m app d) (update-IsShown m drawn app d h)
  handle_all-IsShown (callback c ∷ is) drawn app d h =
      handle_all-IsShown is drawn (call c app) (subst AreDistinct (sym (call-state c app)) d)
        (call-IsShown c drawn app h)

pub init-IsShown :
    (f : Formats) (dark : Bool) (is : List Input)
    → IsShown f (drawn_after false is) (handle_all f is (init dark))
unfolding init
init-IsShown f dark is =
    handle_all-IsShown f is false (init dark) (tt, tt)
      (record {
        banner = refl;
        flag = refl;
        places = Applications.new_page-InPlace;
        title = λ n. absurd (ground arith);
        overview = λ n p. absurd (ground arith);
        apps = λ n k. absurd (ground arith);
        conns = λ n k. absurd (ground arith);
        daemon = λ n p. absurd (ground arith);
      })
