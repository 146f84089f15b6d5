-- ===== src/Server/AddRule.antt =====
-- A request to add a Block rule without an expiry time, over a connection to the daemon:
-- crates/daemon/src/ipc.rs with `dispatch` of crates/daemon/src/main.rs.
use mathlib.Core.Path.{subst}
use travelmode.Base.{
  ℕ, ◌≡◌, ◌∙◌, refl, false, true, List, [], ◌∷◌, ◌++◌, none, some, FilePath, arith, add_u64,
  path_beq,
}
use travelmode.Types.{RuleInput, block, rule_added}
use travelmode.Conntrack.{AddrText}
use travelmode.Rules
use travelmode.Rules.{RuleStore, new_rule, expiry}
use travelmode.State.{DaemonState}
use travelmode.Ipc.{Request, Response, add_rule, ok, unexpected_eof, success, Json, write_frame}
use travelmode.Ipc.Frames.{Travels, working}
use travelmode.Ipc.Link.{exchange}
use travelmode.Firewall.Verdict.{drop, Arrival, decide}
use travelmode.Firewall.Verdict.Exact.{outcome}
use travelmode.Daemon.{Setting, Effects, dispatch, handle_add_rule}
use travelmode.Daemon.Blocking.{IsFrom, dispatch-drops}
use travelmode.Server.{Received, client, accept_loop}
use travelmode.Server.Exchange.{connected, exchange-handle_client}

-- The state in which the daemon answers, and the rule that it has stored.
pub record Added (e : Setting) (s : DaemonState) (input : RuleInput) : Type 0 where
  pub state : DaemonState
  pub effects : Effects
  pub answered : dispatch e s (add_rule input) ≡ some (ok, state, effects)
  pub paused : state.paused ≡ s.paused
  pub told : state.events ≡ s.events ++ rule_added (new_rule input e.now none s.rules.next_id) ∷ []

pub dispatch-Added :
    (e : Setting) (s : DaemonState) (input : RuleInput) → input.ttl_secs ≡ none → Added e s input
unfolding dispatch handle_add_rule Rules.add expiry
dispatch-Added e s input h =
    rw h (record { state = _; effects = _; answered = refl; paused = refl; told = refl })

-- The packet is dropped and counted.
abbrev pub IsDropped : AddrText → DaemonState → Arrival → Type 0
IsDropped a s p = outcome (decide a s p) ≡ some (drop, add_u64 s.blocked_count 1)

-- The bytes of a request on a fresh connection.
abbrev pub bytes_sent : Json Request → Request → List ℕ
bytes_sent jq request = (write_frame jq (working []) request).1.sent

module _ (jq : Json Request) (jr : Json Response) (e : Setting) (s : DaemonState) where
  -- The daemon after a client has made a request.
  abbrev pub served : Request → List Received → DaemonState
  served request rx =
      accept_loop jq jr (dispatch e) s (
        client (record { bytes = bytes_sent jq request; end = unexpected_eof }) (working []) rx
        ∷ [])

  pub served-Added :
      (input : RuleInput) (rx : List Received) (added : Added e s input)
      → Travels jq (add_rule input)
      → Travels jr ok
      → (exchange jq jr (connected jq jr (dispatch e) s rx) (add_rule input) ≡ success ok)
        × (served (add_rule input) rx ≡ added.state)
  unfolding accept_loop
  served-Added input rx added q r =
      let (answer, (over, handled, same, _, _)) =
        exchange-handle_client jq jr (dispatch e) s (add_rule input) ok added.state added.effects rx
          q r refl added.answered in
      (answer, ground (arith, handled, same))

  -- The packets of the executable are dropped from then on.
  pub served-drops :
      (input : RuleInput) (rx : List Received) (p : Arrival) (exe : FilePath)
      → input.action ≡ block
      → input.ttl_secs ≡ none
      → path_beq input.exe_path exe ≡ true
      → Travels jq (add_rule input)
      → Travels jr ok
      → s.paused ≡ false
      → IsFrom (served (add_rule input) rx) p exe
      → IsDropped e.addresses (served (add_rule input) rx) p
  served-drops input rx p exe b t x q r on f =
      let added : Added e s input = dispatch-Added e s input t in
      let same : served (add_rule input) rx ≡ added.state = (served-Added input rx added q r).1 in
      rw same (
        dispatch-drops e s added.state added.effects input p exe b t added.answered
          (added.paused ∙ on) x (subst (λ z. IsFrom z p exe) same f))
