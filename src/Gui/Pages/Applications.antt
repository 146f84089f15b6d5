-- ===== src/Gui/Pages/Applications.antt =====
-- The applications page: crates/gui/src/pages/applications.rs.
pub mod Placed
pub mod Shown
pub mod Live
use travelmode.Base.Map
use travelmode.Base.Map.{Map}
use travelmode.Base.{
  ℕ, Bool, true, false, not, ◌&&◌, List, [], ◌∷◌, ◌++◌, Option, none, some, Text, text, text_key,
  FilePath, is_some, is_empty, retain, if◌then◌else◌,
}
use travelmode.Client.{AppEntry, ClientState}
use travelmode.Gui.{GuiCmd, block_app, unblock}
use travelmode.Gui.Pages.{SortKey, Section, insert_row, remove_row, Formats}
use travelmode.Gui.Fmt.{human_bytes, human_speed}

pub record AppRow : Type 0 where
  pub title : Text
  -- What the switch's handler captured.
  pub exe : Option FilePath
  pub rule_id : Option ℕ
  pub blocked : Bool
  pub sort_key : SortKey
  pub subtitle : Text
  pub dimmed : Bool
  pub switch_active : Bool
  pub switch_sensitive : Bool

pub record AppsPage : Type 0 where
  pub allowed : Section
  pub blocked : Section
  pub rows : Map Text AppRow
  pub allowed_visible : Bool
  pub blocked_visible : Bool
  pub empty_visible : Bool

abbrev pub new_page : AppsPage
new_page = record {
  allowed = [];
  blocked = [];
  rows = [];
  allowed_visible = true;
  blocked_visible = false;
  empty_visible = true;
}

-- The light switch: on while the application may use the network.
abbrev pub is_allowed : AppEntry → Bool
is_allowed app = not app.blocked

abbrev pub subtitle_of : Formats → AppEntry → Text
subtitle_of f app =
    text "↑ "
    ++ human_speed f.floats app.speed_up
    ++ text " · ↓ "
    ++ human_speed f.floats app.speed_down
    ++ text "  —  total ↑ "
    ++ human_bytes f.floats app.bytes_sent
    ++ text " ↓ "
    ++ human_bytes f.floats app.bytes_recv

unfoldable pub refresh_row : Formats → AppEntry → AppRow → AppRow
refresh_row f app row = record row {
  sort_key = record row.sort_key { primary = app.bytes_recv; secondary = app.bytes_sent };
  subtitle = subtitle_of f app;
  dimmed = app.blocked;
  rule_id = app.block_rule_id;
  switch_active = is_allowed app;
  switch_sensitive = is_some app.exe;
}

-- The widget's own settings are those of a fresh switch and label.
unfoldable pub create_row : AppEntry → AppRow
create_row app = record {
  title = app.name;
  exe = app.exe;
  rule_id = app.block_rule_id;
  blocked = app.blocked;
  sort_key = record { primary = app.bytes_recv; secondary = app.bytes_sent; name = app.name };
  subtitle = [];
  dimmed = false;
  switch_active = false;
  switch_sensitive = true;
}

-- The user flips the switch of a row; the page's own changes of it send nothing.
unfoldable pub switch_commands : AppRow → Bool → List GuiCmd
switch_commands row true = elim row.rule_id [ none ↦ [] | some id ↦ unblock id ∷ [] ]
switch_commands row false = elim row.exe [ none ↦ [] | some exe ↦ block_app row.title exe ∷ [] ]

abbrev pub section : Bool → AppsPage → Section
section true page = page.blocked
section false page = page.allowed

unfoldable pub insert_into : Bool → Text → AppsPage → AppsPage
insert_into true key page = record page { blocked = insert_row key page.blocked }
insert_into false key page = record page { allowed = insert_row key page.allowed }

unfoldable pub remove_from : Bool → Text → AppsPage → AppsPage
remove_from true key page = record page { blocked = remove_row key page.blocked }
remove_from false key page = record page { allowed = remove_row key page.allowed }

unfoldable pub drop_row : Text → AppsPage → AppsPage
unfolding remove_from
drop_row key page = elim (Map.get key page.rows) [
  | none ↦ page
  | some row ↦ remove_from row.blocked key (record page { rows = Map.remove key page.rows })
]

unfoldable pub drop_rows : List Text → AppsPage → AppsPage
unfolding drop_row
drop_rows [] page = page
drop_rows (key ∷ stale) page = drop_rows stale (drop_row key page)

abbrev pub same : Bool → Bool → Bool
same true b = b
same false b = not b

-- A row whose group changed moves to the other section.
unfoldable pub move_row : Text → Bool → Bool → AppsPage → AppsPage
unfolding insert_into remove_from
move_row key old new page =
    if same old new then page else insert_into new key (remove_from old key page)

abbrev pub set_row : Text → AppRow → AppsPage → AppsPage
set_row key row page = record page { rows = Map.insert key row page.rows }

module _ (f : Formats) where
  unfoldable pub show_app : Text → AppEntry → AppsPage → AppsPage
  unfolding move_row refresh_row create_row insert_into
  show_app key app page = elim (Map.get key page.rows) [
    | some row ↦
        set_row key (refresh_row f app (record row { blocked = app.blocked }))
          (move_row key row.blocked app.blocked page)
    | none ↦ set_row key (refresh_row f app (create_row app)) (insert_into app.blocked key page)
  ]

  unfoldable pub show_apps : Map Text AppEntry → AppsPage → AppsPage
  unfolding show_app
  show_apps [] page = page
  show_apps ((key, app) ∷ apps) page = show_apps apps (show_app key app page)

  abbrev pub set_visible : AppsPage → AppsPage
  set_visible page = record page {
    allowed_visible = not (is_empty page.allowed);
    blocked_visible = not (is_empty page.blocked);
    empty_visible = is_empty page.allowed && is_empty page.blocked;
  }

  abbrev pub stale_rows : ClientState → AppsPage → List Text
  stale_rows state page = retain (λ k. not (Map.contains_key k state.apps)) (Map.keys page.rows)

  unfoldable pub update : ClientState → AppsPage → AppsPage
  unfolding drop_rows show_apps
  update state page = set_visible (show_apps state.apps (drop_rows (stale_rows state page) page))
