-- ===== src/Cli.antt =====
-- The command line client: crates/cli/src/main.rs. Its environment is the record `Shell`, the
-- connections that it makes are `dial`, and what it prints is a list.
pub mod Resolve
pub mod Table
pub mod Bytes
pub mod Print
pub mod Watch
pub mod Requests
pub mod Blocking
use travelmode.Base.{
  ℕ, Bool, true, false, not, ◌&&◌, List, [], ◌∷◌, ◌++◌, Option, none, some, Text, text, FilePath,
  is_some, map, if◌then◌else◌,
}
use travelmode.Types.{Event, RuleInput, RuleAction, allow, block}
use travelmode.Ipc.{
  Request, get_status, get_network, get_processes, get_connections, get_top, list_rules, add_rule,
  remove_rule, set_paused, subscribe, Response, ok, error, Outcome, success, failure, Json,
}
use travelmode.Ipc.Link.{
  Link, ErrorText, show_error, ExchangeError, connecting, sending, receiving, exchange,
}
use travelmode.Cli.Watch.{follow, no_connection}
use travelmode.Cli.Resolve.{Shell, resolve_exe, file_name}

infixl 5 ◌>>=◌
abbrev ◌>>=◌ {ℓ κ} :
    {E : Type 0} {A : Type ℓ} {B : Type κ} → Outcome E A → (A → Outcome E B) → Outcome E B
success a >>= f = f a
failure e >>= f = failure e

pub data Command : Type 0 where
  status network ps connections top rules pause resume watch : Command
  block_app : Text → Option ℕ → Bool → Command
  allow_app : Text → Option ℕ → Bool → Command
  remove : ℕ → Command

-- The protocol, and the connections that the client gets for its requests.
pub record Net : Type 0 where
  pub requests : Json Request
  pub responses : Json Response
  pub errors : ErrorText
  pub socket : FilePath
  pub dial : Request → Link
  -- `Debug` of a response.
  pub debug : Response → Text

module _ (n : Net) where
  abbrev pub explain : ExchangeError → Text
  explain (connecting why) = no_connection n.socket why
  explain (sending e) = text "failed to send request: " ++ show_error n.errors e
  explain (receiving e) = text "failed to read response: " ++ show_error n.errors e

  abbrev explained : Outcome ExchangeError Response → Outcome Text Response
  explained (success r) = success r
  explained (failure e) = failure (explain e)

  unfoldable pub roundtrip : Request → Outcome Text Response
  roundtrip request = explained (exchange n.requests n.responses (n.dial request) request)

-- What goes to standard output: a response as JSON or laid out.
pub data Printed : Type 0 where
  as_json : Response → Printed
  pretty : Response → Printed
  event_line : Event → Printed

-- What a command prints, and whether it succeeds or with what message it fails.
abbrev pub Ran : Type 0
Ran = List Printed × Outcome Text (Unit {0})

abbrev pub failed : Text → Ran
failed why = ([], failure why)

abbrev pub rule_input : FilePath → Text → RuleAction → Option ℕ → Bool → RuleInput
rule_input exe_path target action temp no_persist = record {
  name = elim (file_name exe_path) [ none ↦ target | some name ↦ name ];
  exe_path = exe_path;
  action = action;
  persistent = not no_persist && not (is_some temp);
  ttl_secs = temp;
}

module _ (n : Net) where
  abbrev judge_response : Response → Ran
  judge_response ok = ([], success tt)
  judge_response (error message) = failed (text "daemon error: " ++ message)
  judge_response other = failed (text "unexpected response: " ++ n.debug other)

  unfoldable pub simple_request : Bool → Request → Ran
  unfolding roundtrip
  simple_request json request = elim (roundtrip n request) [
    | failure why ↦ failed why
    | success response ↦
        if json then (as_json response ∷ [], success tt) else judge_response response
  ]

  unfoldable pub query : Bool → Request → Ran
  unfolding roundtrip
  query json request = elim (roundtrip n request) [
    | failure why ↦ failed why
    | success response ↦ ((if json then as_json response else pretty response) ∷ [], success tt)
  ]

  unfoldable pub resolve_rule : Shell → Text → RuleAction → Option ℕ → Bool → Outcome Text RuleInput
  unfolding resolve_exe
  resolve_rule sh target action temp no_persist = do
    exe_path ← resolve_exe sh (roundtrip n) target
    success (rule_input exe_path target action temp no_persist)

  add_resolved : Bool → Outcome Text RuleInput → Ran
  unfolding simple_request
  add_resolved json (failure why) = failed why
  add_resolved json (success input) = simple_request json (add_rule input)

  watched : Option (List Event × Outcome Text (Unit {0})) → Option Ran
  watched none = none
  watched (some (events, result)) = some (map event_line events, result)

  -- `run`; `none` would be a stream that `watch` never finishes.
  unfoldable pub run : Shell → Bool → Command → Option Ran
  unfolding add_resolved resolve_rule simple_request query watched follow
  run sh json (block_app target temp no_persist) =
      some (add_resolved json (resolve_rule sh target block temp no_persist))
  run sh json (allow_app target temp no_persist) =
      some (add_resolved json (resolve_rule sh target allow temp no_persist))
  run sh json (remove id) = some (simple_request json (remove_rule id))
  run sh json pause = some (simple_request json (set_paused true))
  run sh json resume = some (simple_request json (set_paused false))
  run sh json watch = watched (follow n.requests n.responses n.errors n.socket (n.dial subscribe))
  run sh json status = some (query json get_status)
  run sh json network = some (query json get_network)
  run sh json ps = some (query json get_processes)
  run sh json connections = some (query json get_connections)
  run sh json top = some (query json get_top)
  run sh json rules = some (query json list_rules)
