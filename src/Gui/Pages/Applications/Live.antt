-- ===== src/Gui/Pages/Applications/Live.antt =====
-- The applications page in a session: crates/gui/src/pages/applications.rs over
-- crates/gui/src/state.rs.
use travelmode.Base.Map
use travelmode.Base.{◌≡◌, some, List, Text, text_key}
use travelmode.Types.{Rule, Status, NetworkInfo, AppUsage, ConnectionInfo}
use travelmode.Client.{AppEntry, ClientState}
use travelmode.Client.Snapshot.{apply_snapshot}
use travelmode.Client.Session.{Turn, turns}
use travelmode.Client.Apps.{session-Distinct}
use travelmode.Gui.Pages.{Formats}
use travelmode.Gui.Pages.Applications.{AppRow, AppsPage, update}
use travelmode.Gui.Pages.Applications.Placed.{InPlace}
use travelmode.Gui.Pages.Applications.Shown.{
  Agrees, Named, drawn, drawn-InPlace, update-InPlace, update-Agrees, update-Named,
}

-- At any time of a session, and whatever states the page was updated to before: after an update every
-- application has a row that shows it, with its counters and speeds, its switch, its rule and whether
-- it is dimmed; no other row is left; each row stands in the section of its group and in no other; and
-- a new row has the title and the executable of its application, where a row that was there keeps
-- those that it was made with.
pub session-Agrees :
    (f : Formats) (status : Status) (network : NetworkInfo) (top : List AppUsage)
    (conns : List ConnectionInfo) (rules : List Rule) (s : ClientState) (ts : List Turn)
    (earlier : List ClientState)
    → ((k : Text)
        → Agrees f (Map.get k (turns ts (apply_snapshot status network top conns rules s)).apps) (
            Map.get k
              (update f
                (turns ts (apply_snapshot status network top conns rules s))
                (drawn f earlier)).rows))
      × ((k : Text) (app : AppEntry) (row : AppRow)
          → Map.get k (turns ts (apply_snapshot status network top conns rules s)).apps ≡ some app
          → Map.get k
              (update f
                (turns ts (apply_snapshot status network top conns rules s))
                (drawn f earlier)).rows
            ≡ some row
          → Named (Map.get k (drawn f earlier).rows) app row)
      × InPlace
          (update f (turns ts (apply_snapshot status network top conns rules s)) (drawn f earlier))
session-Agrees f status network top conns rules s ts earlier =
    let state : ClientState = turns ts (apply_snapshot status network top conns rules s) in
    let d : Map.Distinct state.apps = session-Distinct status network top conns rules s ts in
    let page : AppsPage = drawn f earlier in
    (
      update-Agrees f state page d,
      (λ k app row e h. update-Named f state page k app row d e h),
      update-InPlace f state page (drawn-InPlace f earlier),
    )
