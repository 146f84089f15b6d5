-- ===== src/Gui/Pages/Applications/Placed.antt =====
-- In which section the rows stand: crates/gui/src/pages/applications.rs.

use travelmode.Base.Map
use travelmode.Base.Map.{Map, get-insert, get-remove, get_congr}
use travelmode.Base.{
  ◌≡◌, refl, Bool, true, false, not, ◌&&◌, ◌||◌, List, [], ◌∷◌, Option, none, some, Text, text_key,
  beq_sym, text_beq, text_beq_congr, arith, any, any-append, Option-cases, inl, inr, if◌then◌else◌,
}
use travelmode.Client.{AppEntry}
use travelmode.Gui.Pages.{Section, insert_row, remove_row, Formats}
use travelmode.Gui.Pages.Applications.{
  AppRow, AppsPage, section, same, insert_into, remove_from, drop_row, drop_rows, move_row, set_row,
  show_app, show_apps, refresh_row, create_row,
}

abbrev pub is_in : Text → Section → Bool
is_in k section = any (λ j. text_beq j k) section

is_in-insert_row :
    (key k : Text) (s : Section) → is_in k (insert_row key s) ≡ (is_in k s || text_beq key k)
is_in-insert_row key k s = ground (arith, any-append (λ j. text_beq j k) s (key ∷ []))

is_in-remove_row :
    (key k : Text) (s : Section) → is_in k (remove_row key s) ≡ (is_in k s && not (text_beq key k))
is_in-remove_row key k [] = refl
is_in-remove_row key k (j ∷ s) =
    ground (
      arith,
      is_in-remove_row key k s,
      text_beq_congr j key k,
      text_beq_congr j k key,
      beq_sym k key,
    )

is_in-insert_into :
    (c b : Bool) (key k : Text) (page : AppsPage)
    → is_in k (section b (insert_into c key page))
      ≡ (is_in k (section b page) || (same c b && text_beq key k))
unfolding insert_into
is_in-insert_into true true key k page = is_in-insert_row key k page.blocked
is_in-insert_into true false key k page = ground arith
is_in-insert_into false true key k page = ground arith
is_in-insert_into false false key k page = is_in-insert_row key k page.allowed

is_in-remove_from :
    (c b : Bool) (key k : Text) (page : AppsPage)
    → is_in k (section b (remove_from c key page))
      ≡ (is_in k (section b page) && not (same c b && text_beq key k))
unfolding remove_from
is_in-remove_from true true key k page = is_in-remove_row key k page.blocked
is_in-remove_from true false key k page = ground arith
is_in-remove_from false true key k page = ground arith
is_in-remove_from false false key k page = is_in-remove_row key k page.allowed

remove_from-rows :
    (c : Bool) (key : Text) (page : AppsPage) → (remove_from c key page).rows ≡ page.rows
unfolding remove_from
remove_from-rows true key page = refl
remove_from-rows false key page = refl

insert_into-rows :
    (c : Bool) (key : Text) (page : AppsPage) → (insert_into c key page).rows ≡ page.rows
unfolding insert_into
insert_into-rows true key page = refl
insert_into-rows false key page = refl

abbrev pub placed : Bool → Option AppRow → Bool
placed b none = false
placed b (some row) = same row.blocked b

-- Each row stands in the section of its group, and no other row does.
abbrev pub InPlace : AppsPage → Type 0
InPlace page = (k : Text) (b : Bool) → is_in k (section b page) ≡ placed b (Map.get k page.rows)

get-drop_row :
    (key k : Text) (page : AppsPage)
    → Map.get k (drop_row key page).rows ≡ (if text_beq key k then none else Map.get k page.rows)
unfolding drop_row
get-drop_row key k page = elim (Option-cases (Map.get key page.rows)) [
  | inl e ↦ ground (arith, get_congr key k page.rows)
  | inr (row, e) ↦ ground (
    arith,
    get-remove key k page.rows,
    remove_from-rows row.blocked key (record page { rows = Map.remove key page.rows }),
  )
]

drop_row-InPlace : (key : Text) (page : AppsPage) → InPlace page → InPlace (drop_row key page)
unfolding drop_row
drop_row-InPlace key page h k b = elim (Option-cases (Map.get key page.rows)) [
  | inl e ↦ rw (e, drop_row) (h k b)
  | inr (row, e) ↦
      let rest : AppsPage = record page { rows = Map.remove key page.rows } in
      rw (e, drop_row)
        (ground (
          arith,
          h k b,
          is_in-remove_from row.blocked b key k rest,
          remove_from-rows row.blocked key rest,
          get-remove key k page.rows,
          get_congr key k page.rows,
        ))
]

pub get-drop_rows :
    (stale : List Text) (k : Text) (page : AppsPage)
    → Map.get k (drop_rows stale page).rows ≡ (if is_in k stale then none else Map.get k page.rows)
unfolding drop_rows
get-drop_rows [] k page = refl
get-drop_rows (key ∷ stale) k page =
    ground (arith, get-drop_rows stale k (drop_row key page), get-drop_row key k page)

pub drop_rows-InPlace :
    (stale : List Text) (page : AppsPage) → InPlace page → InPlace (drop_rows stale page)
unfolding drop_rows
drop_rows-InPlace [] page h = h
drop_rows-InPlace (key ∷ stale) page h =
    drop_rows-InPlace stale (drop_row key page) (drop_row-InPlace key page h)

move_row-rows :
    (key : Text) (old new : Bool) (page : AppsPage) → (move_row key old new page).rows ≡ page.rows
unfolding move_row
move_row-rows key old new page =
    ground
      (arith, insert_into-rows new key (remove_from old key page), remove_from-rows old key page)

is_in-move_row :
    (key k : Text) (old new b : Bool) (page : AppsPage)
    → (text_beq key k ≡ true → is_in k (section b page) ≡ same old b)
    → is_in k (section b (move_row key old new page))
      ≡ (if text_beq key k then same new b else is_in k (section b page))
unfolding move_row
is_in-move_row key k old new b page h = ground (
  arith,
  h,
  is_in-insert_into new b key k (remove_from old key page),
  is_in-remove_from old b key k page,
)

section-set_row :
    (b : Bool) (key : Text) (row : AppRow) (page : AppsPage)
    → section b (set_row key row page) ≡ section b page
section-set_row true key row page = refl
section-set_row false key row page = refl

module _ (f : Formats) where
  -- The row of an application that had this row, or none.
  abbrev pub shown_row : AppEntry → Option AppRow → AppRow
  shown_row app none = refresh_row f app (create_row app)
  shown_row app (some row) = refresh_row f app (record row { blocked = app.blocked })

  pub get-show_app :
      (key k : Text) (app : AppEntry) (page : AppsPage)
      → Map.get k (show_app f key app page).rows ≡ (
          if text_beq key k
          then some (shown_row app (Map.get key page.rows))
          else Map.get k page.rows)
  unfolding show_app
  get-show_app key k app page = elim (Option-cases (Map.get key page.rows)) [
    | inl e ↦ ground (
      arith,
      insert_into-rows app.blocked key page,
      get-insert key k (shown_row app none) page.rows,
    )
    | inr (row, e) ↦ ground (
      arith,
      move_row-rows key row.blocked app.blocked page,
      get-insert key k (shown_row app (some row)) page.rows,
    )
  ]

  is_in-show_app :
      (key k : Text) (app : AppEntry) (page : AppsPage) (b : Bool)
      → InPlace page
      → is_in k (section b (show_app f key app page))
        ≡ (if text_beq key k then same app.blocked b else is_in k (section b page))
  unfolding show_app
  is_in-show_app key k app page b h = elim (Option-cases (Map.get key page.rows)) [
    | inl e ↦
        let moved : AppsPage = insert_into app.blocked key page in
        rw (e, show_app, section-set_row b key (shown_row app none) moved)
          (ground
            (arith, h k b, get_congr key k page.rows, is_in-insert_into app.blocked b key k page))
    | inr (row, e) ↦
        let moved : AppsPage = move_row key row.blocked app.blocked page in
        rw (e, show_app, section-set_row b key (shown_row app (some row)) moved)
          (is_in-move_row key k row.blocked app.blocked b page
            (λ t. ground (arith, h k b, get_congr key k page.rows)))
  ]

  shown_row-blocked : (app : AppEntry) (o : Option AppRow) → (shown_row app o).blocked ≡ app.blocked
  unfolding refresh_row create_row
  shown_row-blocked app none = refl
  shown_row-blocked app (some row) = refl

  show_app-InPlace :
      (key : Text) (app : AppEntry) (page : AppsPage)
      → InPlace page
      → InPlace (show_app f key app page)
  show_app-InPlace key app page h k b = ground (
    arith,
    h k b,
    is_in-show_app key k app page b h,
    get-show_app key k app page,
    shown_row-blocked app (Map.get key page.rows),
  )

  pub show_apps-InPlace :
      (apps : Map Text AppEntry) (page : AppsPage) → InPlace page → InPlace (show_apps f apps page)
  unfolding show_apps
  show_apps-InPlace [] page h = h
  show_apps-InPlace ((key, app) ∷ apps) page h =
      show_apps-InPlace apps (show_app f key app page) (show_app-InPlace key app page h)
