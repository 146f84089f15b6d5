-- ===== src/Gui/Pages/Connections/Shown.antt =====
-- The rows of the connections page after an update: crates/gui/src/pages/connections.rs.
use travelmode.Base.Map
use travelmode.Base.Map.{Map, get-insert, get-remove, get_congr}
use travelmode.Base.{
  ◌≡◌, refl, false, List, [], ◌∷◌, Option, none, some, Text, text_key, text_beq, arith, any,
  Bool-cases, Option-cases, inl, inr, if◌then◌else◌,
}
use travelmode.Types.{Protocol, tcp, udp, other, ConnectionInfo}
use travelmode.Client.{ClientState}
use travelmode.Gui.Pages.{Formats}
use travelmode.Gui.Pages.Stale.{any-stale, any-stale_kept}
use travelmode.Gui.Pages.Connections.{
  ConnRow, ConnsPage, insert_into, remove_from, drop_row, drop_rows, stats_text, total_bytes,
  new_row, show_conn, show_conns, stale_rows, update,
}

-- The row shows the connection: its counters, and their sum, by which it is sorted.
pub record Reflects (f : Formats) (conn : ConnectionInfo) (row : ConnRow) : Type 0 where
  pub stats : row.stats ≡ stats_text f conn
  pub total : row.sort_key.primary ≡ total_bytes conn

-- A row for each connection, and nothing else.
abbrev pub Agrees : Formats → Option ConnectionInfo → Option ConnRow → Type 0
Agrees f none o = o ≡ none
Agrees f (some conn) o = (row : ConnRow) × (o ≡ some row) × Reflects f conn row

insert_into-rows :
    (p : Protocol) (key : Text) (page : ConnsPage) → (insert_into p key page).rows ≡ page.rows
unfolding insert_into
insert_into-rows tcp key page = refl
insert_into-rows udp key page = refl
insert_into-rows other key page = refl

remove_from-rows :
    (p : Protocol) (key : Text) (page : ConnsPage) → (remove_from p key page).rows ≡ page.rows
unfolding remove_from
remove_from-rows tcp key page = refl
remove_from-rows udp key page = refl
remove_from-rows other key page = refl

get-drop_row :
    (key k : Text) (page : ConnsPage)
    → Map.get k (drop_row key page).rows ≡ (if text_beq key k then none else Map.get k page.rows)
unfolding drop_row
get-drop_row key k page = elim (Option-cases (Map.get key page.rows)) [
  | inl e ↦ ground (arith, get_congr key k page.rows)
  | inr (row, e) ↦ ground (
    arith,
    get-remove key k page.rows,
    remove_from-rows row.proto key (record page { rows = Map.remove key page.rows }),
  )
]

get-drop_rows :
    (stale : List Text) (k : Text) (page : ConnsPage)
    → Map.get k (drop_rows stale page).rows
      ≡ (if any (λ j. text_beq j k) stale then none else Map.get k page.rows)
unfolding drop_rows
get-drop_rows [] k page = refl
get-drop_rows (key ∷ stale) k page =
    ground (arith, get-drop_rows stale k (drop_row key page), get-drop_row key k page)

module _ (f : Formats) where
  -- The row of a connection that had this row, or none.
  abbrev shown_row : ConnectionInfo → Option ConnRow → ConnRow
  shown_row conn none = new_row f conn
  shown_row conn (some row) = record row {
    sort_key = record row.sort_key { primary = total_bytes conn };
    stats = stats_text f conn;
  }

  shown_row-Reflects :
      (conn : ConnectionInfo) (o : Option ConnRow) → Reflects f conn (shown_row conn o)
  unfolding new_row
  shown_row-Reflects conn none = record { stats = refl; total = refl }
  shown_row-Reflects conn (some row) = record { stats = refl; total = refl }

  get-show_conn :
      (key k : Text) (conn : ConnectionInfo) (page : ConnsPage)
      → Map.get k (show_conn f key conn page).rows ≡ (
          if text_beq key k
          then some (shown_row conn (Map.get key page.rows))
          else Map.get k page.rows)
  unfolding show_conn
  get-show_conn key k conn page = elim (Option-cases (Map.get key page.rows)) [
    | inl e ↦
        let row : ConnRow = new_row f conn in
        ground (
          arith,
          insert_into-rows conn.protocol key (record page { rows = Map.insert key row page.rows }),
          get-insert key k row page.rows,
        )
    | inr (row, e) ↦ ground (arith, get-insert key k (shown_row conn (some row)) page.rows)
  ]

  get-show_conns_other :
      (conns : Map Text ConnectionInfo) (k : Text) (page : ConnsPage)
      → Map.contains_key k conns ≡ false
      → Map.get k (show_conns f conns page).rows ≡ Map.get k page.rows
  unfolding show_conns Map.contains_key Map.get
  get-show_conns_other [] k page h = refl
  get-show_conns_other ((key, conn) ∷ conns) k page h = ground (
    arith,
    get-show_conns_other conns k (show_conn f key conn page),
    get-show_conn key k conn page,
  )

  get-show_conns :
      (conns : Map Text ConnectionInfo) (k : Text) (conn : ConnectionInfo) (page : ConnsPage)
      → Map.Distinct conns
      → Map.get k conns ≡ some conn
      → Map.get k (show_conns f conns page).rows ≡ some (shown_row conn (Map.get k page.rows))
  unfolding show_conns Map.contains_key Map.get
  get-show_conns [] k conn page d h = absurd (ground arith)
  get-show_conns ((key, c) ∷ conns) k conn page (n, d) h = elim (Bool-cases (text_beq key k)) [
    | inl t ↦ ground (
      arith,
      get_congr key k conns,
      get_congr key k page.rows,
      get-show_conns_other conns k (show_conn f key c page),
      get-show_conn key k c page,
    )
    | inr t ↦
        ground (
          arith,
          get-show_conns conns k conn (show_conn f key c page) d,
          get-show_conn key k c page,
        )
  ]

  -- After an update every connection of the state has a row that shows it, and no other row is left.
  pub update-Agrees :
      (state : ClientState) (page : ConnsPage)
      → Map.Distinct state.conns
      → (k : Text) → Agrees f (Map.get k state.conns) (Map.get k (update f state page).rows)
  unfolding update Map.contains_key
  update-Agrees state page d k = row (Map.get k state.conns) refl
    where
      row :
          (o : Option ConnectionInfo)
          → Map.get k state.conns ≡ o
          → Agrees f o (Map.get k (update f state page).rows)
      row none e = ground (
        arith,
        get-show_conns_other state.conns k (drop_rows (stale_rows f state page) page),
        get-drop_rows (stale_rows f state page) k page,
        any-stale page.rows state.conns k,
      )
      row (some conn) e = (
        shown_row conn (Map.get k page.rows),
        ground (
          arith,
          get-show_conns state.conns k conn (drop_rows (stale_rows f state page) page) d e,
          get-drop_rows (stale_rows f state page) k page,
          any-stale_kept page.rows state.conns k,
        ),
        shown_row-Reflects conn (Map.get k page.rows),
      )
