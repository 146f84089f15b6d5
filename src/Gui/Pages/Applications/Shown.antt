-- ===== src/Gui/Pages/Applications/Shown.antt =====
-- The rows of the applications page after an update: crates/gui/src/pages/applications.rs.
use mathlib.Core.Path.{subst}
use travelmode.Base.Map
use travelmode.Base.Map.{Map, get-insert, get-remove, get_congr}
use travelmode.Base.{
  ◌≡◌, refl, true, false, not, List, [], ◌∷◌, Option, none, some, Text, text_key, text_beq, arith,
  is_some, Bool-cases, inl, inr,
}
use travelmode.Client.{AppEntry, ClientState}
use travelmode.Gui.Pages.{Formats}
use travelmode.Gui.Pages.Stale.{any-stale, any-stale_kept}
use travelmode.Gui.Pages.Applications.{
  AppRow, AppsPage, drop_rows, show_app, show_apps, refresh_row, create_row, update, stale_rows,
  set_visible, subtitle_of, new_page,
}
use travelmode.Gui.Pages.Applications.Placed.{
  InPlace, shown_row, get-drop_rows, drop_rows-InPlace, get-show_app, show_apps-InPlace,
}

-- The row shows the application: its counters and speeds, whether it is dimmed, the switch, what it is
-- sorted by, and the rule that its switch would remove.
pub record Reflects (f : Formats) (app : AppEntry) (row : AppRow) : Type 0 where
  pub subtitle : row.subtitle ≡ subtitle_of f app
  pub dimmed : row.dimmed ≡ app.blocked
  pub group : row.blocked ≡ app.blocked
  pub switch : row.switch_active ≡ not app.blocked
  pub sensitive : row.switch_sensitive ≡ is_some app.exe
  pub rule : row.rule_id ≡ app.block_rule_id
  pub recv : row.sort_key.primary ≡ app.bytes_recv
  pub sent : row.sort_key.secondary ≡ app.bytes_sent

-- A row for each application, and nothing else.
abbrev pub Agrees : Formats → Option AppEntry → Option AppRow → Type 0
Agrees f none o = o ≡ none
Agrees f (some app) o = (row : AppRow) × (o ≡ some row) × Reflects f app row

-- The title, the executable that the switch blocks, and the name that it is sorted by: a row that was
-- there keeps its own, a new one has those of its application.
pub record Named (old : Option AppRow) (app : AppEntry) (row : AppRow) : Type 0 where
  pub title : row.title ≡ (elim old [ none ↦ app.name | some r ↦ r.title ])
  pub exe : row.exe ≡ (elim old [ none ↦ app.exe | some r ↦ r.exe ])
  pub sorted_by : row.sort_key.name ≡ (elim old [ none ↦ app.name | some r ↦ r.sort_key.name ])

module _ (f : Formats) where
  shown_row-Reflects : (app : AppEntry) (o : Option AppRow) → Reflects f app (shown_row f app o)
  unfolding refresh_row create_row
  shown_row-Reflects app none = record {
    subtitle = refl;
    dimmed = refl;
    group = refl;
    switch = refl;
    sensitive = refl;
    rule = refl;
    recv = refl;
    sent = refl;
  }
  shown_row-Reflects app (some row) = record {
    subtitle = refl;
    dimmed = refl;
    group = refl;
    switch = refl;
    sensitive = refl;
    rule = refl;
    recv = refl;
    sent = refl;
  }

  shown_row-Named : (app : AppEntry) (o : Option AppRow) → Named o app (shown_row f app o)
  unfolding refresh_row create_row
  shown_row-Named app none = record { title = refl; exe = refl; sorted_by = refl }
  shown_row-Named app (some row) = record { title = refl; exe = refl; sorted_by = refl }

  get-show_apps_other :
      (apps : Map Text AppEntry) (k : Text) (page : AppsPage)
      → Map.contains_key k apps ≡ false
      → Map.get k (show_apps f apps page).rows ≡ Map.get k page.rows
  unfolding show_apps Map.contains_key Map.get
  get-show_apps_other [] k page h = refl
  get-show_apps_other ((key, app) ∷ apps) k page h =
      ground
        (arith, get-show_apps_other apps k (show_app f key app page), get-show_app f key k app page)

  get-show_apps :
      (apps : Map Text AppEntry) (k : Text) (app : AppEntry) (page : AppsPage)
      → Map.Distinct apps
      → Map.get k apps ≡ some app
      → Map.get k (show_apps f apps page).rows ≡ some (shown_row f app (Map.get k page.rows))
  unfolding show_apps Map.contains_key Map.get
  get-show_apps [] k app page d h = absurd (ground arith)
  get-show_apps ((key, a) ∷ apps) k app page (n, d) h = elim (Bool-cases (text_beq key k)) [
    | inl t ↦ ground (
      arith,
      get_congr key k apps,
      get_congr key k page.rows,
      get-show_apps_other apps k (show_app f key a page),
      get-show_app f key k a page,
    )
    | inr t ↦
        ground
          (arith, get-show_apps apps k app (show_app f key a page) d, get-show_app f key k a page)
  ]

  set_visible-InPlace : (page : AppsPage) → InPlace page → InPlace (set_visible f page)
  set_visible-InPlace page h k true = h k true
  set_visible-InPlace page h k false = h k false

  pub update-InPlace :
      (state : ClientState) (page : AppsPage) → InPlace page → InPlace (update f state page)
  unfolding update
  update-InPlace state page h =
      let kept : AppsPage = drop_rows (stale_rows f state page) page in
      set_visible-InPlace (show_apps f state.apps kept)
        (show_apps-InPlace f state.apps kept (drop_rows-InPlace (stale_rows f state page) page h))

  get-update :
      (state : ClientState) (page : AppsPage) (k : Text) (app : AppEntry)
      → Map.Distinct state.apps
      → Map.get k state.apps ≡ some app
      → Map.get k (update f state page).rows ≡ some (shown_row f app (Map.get k page.rows))
  unfolding update Map.contains_key
  get-update state page k app d e = ground (
    arith,
    get-show_apps state.apps k app (drop_rows (stale_rows f state page) page) d e,
    get-drop_rows (stale_rows f state page) k page,
    any-stale_kept page.rows state.apps k,
  )

  get-update-none :
      (state : ClientState) (page : AppsPage) (k : Text)
      → Map.get k state.apps ≡ none
      → Map.get k (update f state page).rows ≡ none
  unfolding update Map.contains_key
  get-update-none state page k e = ground (
    arith,
    get-show_apps_other state.apps k (drop_rows (stale_rows f state page) page),
    get-drop_rows (stale_rows f state page) k page,
    any-stale page.rows state.apps k,
  )

  -- After an update every application of the state has a row that shows it, and no other row is left.
  pub update-Agrees :
      (state : ClientState) (page : AppsPage)
      → Map.Distinct state.apps
      → (k : Text) → Agrees f (Map.get k state.apps) (Map.get k (update f state page).rows)
  update-Agrees state page d k = row (Map.get k state.apps) refl
    where
      row :
          (o : Option AppEntry)
          → Map.get k state.apps ≡ o
          → Agrees f o (Map.get k (update f state page).rows)
      row none e = get-update-none state page k e
      row (some app) e = (
        shown_row f app (Map.get k page.rows),
        get-update state page k app d e,
        shown_row-Reflects app (Map.get k page.rows),
      )

  pub update-Named :
      (state : ClientState) (page : AppsPage) (k : Text) (app : AppEntry) (row : AppRow)
      → Map.Distinct state.apps
      → Map.get k state.apps ≡ some app
      → Map.get k (update f state page).rows ≡ some row
      → Named (Map.get k page.rows) app row
  update-Named state page k app row d e h =
      let old : Option AppRow = Map.get k page.rows in
      let same_row : shown_row f app old ≡ row =
        ground (arith, get-update state page k app d e, h) in
      subst (Named old app) same_row (shown_row-Named app old)

-- Nothing has been drawn on a new page.
pub new_page-InPlace : InPlace new_page
unfolding Map.get
new_page-InPlace k true = refl
new_page-InPlace k false = refl

-- The page as earlier updates made it, the last one first.
unfoldable pub drawn : Formats → List ClientState → AppsPage
drawn f [] = new_page
drawn f (state ∷ earlier) = update f state (drawn f earlier)

pub drawn-InPlace : (f : Formats) (earlier : List ClientState) → InPlace (drawn f earlier)
unfolding drawn
drawn-InPlace f [] = new_page-InPlace
drawn-InPlace f (state ∷ earlier) =
    update-InPlace f state (drawn f earlier) (drawn-InPlace f earlier)
