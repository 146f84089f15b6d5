-- ===== src/Gui.antt =====
-- The graphical client's requests: crates/gui/src/client.rs. A request is made over a link, as the
-- command line client's is; `dial` says which link the client gets for which request.
pub mod Session
pub mod Blocking
pub mod Unblocking
pub mod Window
pub mod Fmt
pub mod Pages
pub mod Icons
pub mod Tray
pub mod Thread
pub mod Tabs
use travelmode.Base.{
  ℕ, Bool, true, false, List, [], ◌∷◌, ◌++◌, Option, none, some, Text, text, FilePath,
}
use travelmode.Types.{Status, NetworkInfo, AppUsage, ConnectionInfo, Rule, RuleInput, Event, block}
use travelmode.Ipc.{
  Request, get_status, get_network, get_connections, get_top, list_rules, add_rule, remove_rule,
  Response, Outcome, success, failure, Json,
}
use travelmode.Ipc.Link.{
  Link, ErrorText, show_error, ExchangeError, connecting, sending, receiving, exchange,
}

infixl 5 ◌>>=◌
abbrev ◌>>=◌ {ℓ κ} :
    {E : Type 0} {A : Type ℓ} {B : Type κ} → Outcome E A → (A → Outcome E B) → Outcome E B
success a >>= f = f a
failure e >>= f = failure e

pub record Snapshot : Type 0 where
  pub status : Status
  pub network : NetworkInfo
  pub top : List AppUsage
  pub conns : List ConnectionInfo
  pub rules : List Rule

pub data ClientMsg : Type 0 where
  connected : Snapshot → ClientMsg
  disconnected : ClientMsg
  event : Event → ClientMsg
  command_failed : Text → ClientMsg

pub data GuiCmd : Type 0 where
  set_paused : Bool → GuiCmd
  block_app : Text → FilePath → GuiCmd
  unblock : ℕ → GuiCmd
  reconnect : GuiCmd
  refresh_tray_icon : GuiCmd

-- The protocol, and what the client says of it.
pub record Wire : Type 0 where
  pub requests : Json Request
  pub responses : Json Response
  pub errors : ErrorText
  pub socket : FilePath
  -- `Debug` of a response.
  pub debug : Response → Text

abbrev pub Dial : Type 0
Dial = Request → Link

abbrev pub block_input : Text → FilePath → RuleInput
block_input name exe = record {
  name = name;
  exe_path = exe;
  action = block;
  persistent = true;
  ttl_secs = none;
}

-- The request of a command; two commands are for the client alone.
abbrev pub request_of : GuiCmd → Option Request
request_of (set_paused paused) = some (Request.set_paused paused)
request_of (block_app name exe) = some (add_rule (block_input name exe))
request_of (unblock id) = some (remove_rule id)
request_of reconnect = none
request_of refresh_tray_icon = none

module _ (w : Wire) where
  abbrev pub cannot_connect : Text → Text
  cannot_connect why = text "cannot connect to " ++ w.socket.display ++ text ": " ++ why

  abbrev explain : ExchangeError → Text
  explain (connecting why) = cannot_connect why
  explain (sending e) = text "request failed: " ++ show_error w.errors e
  explain (receiving e) = text "response failed: " ++ show_error w.errors e

  abbrev explained : Outcome ExchangeError Response → Outcome Text Response
  explained (success r) = success r
  explained (failure e) = failure (explain e)

  unfoldable pub one_shot : Dial → Request → Outcome Text Response
  one_shot dial request = explained (exchange w.requests w.responses (dial request) request)

  abbrev pub acknowledged : Response → Outcome Text (Unit {0})
  acknowledged Response.ok = success tt
  acknowledged (Response.error message) = failure (text "daemon error: " ++ message)
  acknowledged other = failure (text "unexpected response: " ++ w.debug other)

  unfoldable pub send_command : Dial → GuiCmd → Outcome Text (Unit {0})
  unfolding one_shot
  send_command dial cmd = elim (request_of cmd) [
    | none ↦ success tt
    | some request ↦ one_shot dial request >>= acknowledged
  ]

  abbrev pub reported : Outcome Text (Unit {0}) → List ClientMsg
  reported (success _) = []
  reported (failure why) = command_failed why ∷ []

  unfoldable pub try_command : Dial → GuiCmd → List ClientMsg
  unfolding send_command
  try_command dial cmd = reported (send_command dial cmd)

  abbrev unexpected {ℓ} : {A : Type ℓ} → Text → Response → Outcome Text A
  unexpected name response =
      failure (text "unexpected response to " ++ name ++ text ": " ++ w.debug response)

  abbrev status_in : Response → Outcome Text Status
  status_in (Response.status v) = success v
  status_in other = unexpected (text "GetStatus") other

  abbrev network_in : Response → Outcome Text NetworkInfo
  network_in (Response.network v) = success v
  network_in other = unexpected (text "GetNetwork") other

  abbrev top_in : Response → Outcome Text (List AppUsage)
  top_in (Response.top v) = success v
  top_in other = unexpected (text "GetTop") other

  abbrev connections_in : Response → Outcome Text (List ConnectionInfo)
  connections_in (Response.connections v) = success v
  connections_in other = unexpected (text "GetConnections") other

  abbrev rules_in : Response → Outcome Text (List Rule)
  rules_in (Response.rules v) = success v
  rules_in other = unexpected (text "ListRules") other

  abbrev pub fetch_status : Dial → Outcome Text Status
  fetch_status dial = one_shot dial get_status >>= status_in

  abbrev pub fetch_network : Dial → Outcome Text NetworkInfo
  fetch_network dial = one_shot dial get_network >>= network_in

  abbrev pub fetch_top : Dial → Outcome Text (List AppUsage)
  fetch_top dial = one_shot dial get_top >>= top_in

  abbrev pub fetch_connections : Dial → Outcome Text (List ConnectionInfo)
  fetch_connections dial = one_shot dial get_connections >>= connections_in

  abbrev pub fetch_rules : Dial → Outcome Text (List Rule)
  fetch_rules dial = one_shot dial list_rules >>= rules_in

  -- The initial fetch: one request per connection.
  unfoldable pub fetch : Dial → Outcome Text Snapshot
  fetch dial = do
    status ← fetch_status dial
    network ← fetch_network dial
    top ← fetch_top dial
    conns ← fetch_connections dial
    rules ← fetch_rules dial
    success (record { status = status; network = network; top = top; conns = conns; rules = rules })
