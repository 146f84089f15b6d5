-- ===== src/Gui/Pages/Connections.antt =====
-- The connections page: crates/gui/src/pages/connections.rs.
pub mod Shown
use travelmode.Base.Map
use travelmode.Base.Map.{Map}
use travelmode.Base.{
  ℕ, Bool, true, false, not, ◌&&◌, List, [], ◌∷◌, ◌++◌, none, some, Text, text, text_key, add_u64,
  is_empty, retain,
}
use mathlib.Core.Option
use travelmode.Base.Parsing.{show_ℕ}
use travelmode.Types.{Protocol, tcp, udp, other, ConnectionInfo}
use travelmode.Client.{ClientState}
use travelmode.Gui.Pages.{SortKey, Section, insert_row, remove_row, Formats}
use travelmode.Gui.Fmt.{human_bytes}

pub record ConnRow : Type 0 where
  pub title : Text
  pub subtitle : Text
  pub stats : Text
  pub proto : Protocol
  pub sort_key : SortKey

pub record ConnsPage : Type 0 where
  pub tcp_rows : Section
  pub udp_rows : Section
  pub other_rows : Section
  pub rows : Map Text ConnRow
  pub tcp_visible : Bool
  pub udp_visible : Bool
  pub other_visible : Bool
  pub empty_visible : Bool

abbrev pub new_page : ConnsPage
new_page = record {
  tcp_rows = [];
  udp_rows = [];
  other_rows = [];
  rows = [];
  tcp_visible = true;
  udp_visible = false;
  other_visible = false;
  empty_visible = true;
}

unfoldable pub insert_into : Protocol → Text → ConnsPage → ConnsPage
insert_into tcp key page = record page { tcp_rows = insert_row key page.tcp_rows }
insert_into udp key page = record page { udp_rows = insert_row key page.udp_rows }
insert_into other key page = record page { other_rows = insert_row key page.other_rows }

unfoldable pub remove_from : Protocol → Text → ConnsPage → ConnsPage
remove_from tcp key page = record page { tcp_rows = remove_row key page.tcp_rows }
remove_from udp key page = record page { udp_rows = remove_row key page.udp_rows }
remove_from other key page = record page { other_rows = remove_row key page.other_rows }

unfoldable pub drop_row : Text → ConnsPage → ConnsPage
unfolding remove_from
drop_row key page = elim (Map.get key page.rows) [
  | none ↦ page
  | some row ↦ remove_from row.proto key (record page { rows = Map.remove key page.rows })
]

unfoldable pub drop_rows : List Text → ConnsPage → ConnsPage
unfolding drop_row
drop_rows [] page = page
drop_rows (key ∷ stale) page = drop_rows stale (drop_row key page)

-- `{:?}` of the protocol in lower case.
abbrev proto_text : Protocol → Text
proto_text tcp = text "tcp"
proto_text udp = text "udp"
proto_text other = text "other"

-- A release build's sum of the two counters wraps around.
abbrev pub total_bytes : ConnectionInfo → ℕ
total_bytes conn = add_u64 conn.bytes_sent conn.bytes_recv

module _ (f : Formats) where
  abbrev pub stats_text : ConnectionInfo → Text
  stats_text conn =
      text "↑ "
      ++ human_bytes f.floats conn.bytes_sent
      ++ text " ↓ "
      ++ human_bytes f.floats conn.bytes_recv

  unfoldable pub new_row : ConnectionInfo → ConnRow
  new_row conn =
      let process : Text = Option.get_or conn.process_name (text "unknown") in
      record {
        title = process ++ text " · " ++ proto_text conn.protocol;
        subtitle = f.show_ip conn.remote_addr ++ text ":" ++ show_ℕ conn.remote_port;
        stats = stats_text conn;
        proto = conn.protocol;
        sort_key = record {
          primary = total_bytes conn;
          secondary = 0;
          name = process ++ f.show_ip conn.remote_addr;
        };
      }

  unfoldable pub show_conn : Text → ConnectionInfo → ConnsPage → ConnsPage
  unfolding insert_into new_row
  show_conn key conn page = elim (Map.get key page.rows) [
    | some row ↦ record page {
      rows =
          Map.insert key
            (record row {
              sort_key = record row.sort_key { primary = total_bytes conn };
              stats = stats_text conn;
            })
            page.rows;
    }
    | none ↦
        insert_into conn.protocol key
          (record page { rows = Map.insert key (new_row conn) page.rows })
  ]

  unfoldable pub show_conns : Map Text ConnectionInfo → ConnsPage → ConnsPage
  unfolding show_conn
  show_conns [] page = page
  show_conns ((key, conn) ∷ conns) page = show_conns conns (show_conn key conn page)

  abbrev pub set_visible : ConnsPage → ConnsPage
  set_visible page = record page {
    tcp_visible = not (is_empty page.tcp_rows);
    udp_visible = not (is_empty page.udp_rows);
    other_visible = not (is_empty page.other_rows);
    empty_visible = is_empty page.tcp_rows && is_empty page.udp_rows && is_empty page.other_rows;
  }

  abbrev pub stale_rows : ClientState → ConnsPage → List Text
  stale_rows state page = retain (λ k. not (Map.contains_key k state.conns)) (Map.keys page.rows)

  unfoldable pub update : ClientState → ConnsPage → ConnsPage
  unfolding drop_rows show_conns
  update state page = set_visible (show_conns state.conns (drop_rows (stale_rows state page) page))
