-- ===== src/Gui/Tabs.antt =====
-- The tabs of the window: crates/gui/src/app.rs.
use travelmode.Base.{Bool, List, [], ◌∷◌, map, Text, text}
use travelmode.Gui.Icons.{ui_icon_name}

pub record Tab : Type 0 where
  pub name : Text
  pub title : Text
  pub icon : Text

abbrev pub tabs : List Tab
tabs =
    record { name = text "dashboard"; title = text "Dashboard"; icon = text "plane" }
    ∷ record { name = text "applications"; title = text "Applications"; icon = text "apps" }
    ∷ record { name = text "connections"; title = text "Connections"; icon = text "connections" }
    ∷ record { name = text "settings"; title = text "Settings"; icon = text "settings" }
    ∷ []

-- The icon names that are set when the window is drawn.
abbrev pub tab_icons : Bool → List Text
tab_icons dark = map (λ (t : Tab). ui_icon_name t.icon dark) tabs
