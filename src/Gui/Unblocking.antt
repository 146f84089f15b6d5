-- ===== src/Gui/Unblocking.antt =====
-- Flipping a light switch back on, from crates/gui/src/pages/applications.rs through
-- crates/gui/src/client.rs to the daemon.
use travelmode.Base.{
  ℕ, ◌≡◌, refl, ap, true, false, List, [], ◌∷◌, ◌++◌, none, some, FilePath, arith, path_beq,
}
use travelmode.Types.{Rule, block, rule_removed}
use travelmode.Rules
use travelmode.Rules.{RuleStore, remove_id, is_blocked}
use travelmode.Rules.Invariant.{IsValid}
use travelmode.Rules.Blocking.{is_blocked-remove}
use travelmode.State.{DaemonState, publish}
use travelmode.Ipc.{remove_rule, ok, success}
use travelmode.Ipc.Link.{exchange}
use travelmode.Ipc.Frames.{Travels}
use travelmode.Daemon.{Setting, dispatch, handle_remove_rule}
use travelmode.Server.{Received, accept_loop}
use travelmode.Server.Exchange.{connected, exchange-handle_client}
use travelmode.Server.AddRule.{served}
use travelmode.Gui.{Wire, Dial, unblock, send_command, one_shot, try_command}
use travelmode.Gui.Pages.Applications.{AppRow, switch_commands}

module _ (e : Setting) (s : DaemonState) (id : ℕ) (rule : Rule) (store : RuleStore) where
  abbrev removed : DaemonState
  removed = publish (rule_removed id) (record s { rules = store })

  dispatch-removed :
      Rules.remove e.platform e.saving s.rules id ≡ some (rule, store)
      → dispatch e s (remove_rule id) ≡ some (ok, removed, record { commands = []; toggle = none })
  unfolding dispatch handle_remove_rule
  dispatch-removed h = rw (h, handle_remove_rule) refl

  served-removed :
      (w : Wire) (rx : List Received)
      → Rules.remove e.platform e.saving s.rules id ≡ some (rule, store)
      → Travels w.requests (remove_rule id)
      → Travels w.responses ok
      → (exchange w.requests w.responses
            (connected w.requests w.responses (dispatch e) s rx)
            (remove_rule id)
          ≡ success ok)
        × (served w.requests w.responses e s (remove_rule id) rx ≡ removed)
  unfolding accept_loop
  served-removed w rx h q r =
      let (answer, (over, handled, same, _, _)) =
        exchange-handle_client w.requests w.responses (dispatch e) s (remove_rule id) ok removed
          (record { commands = []; toggle = none }) rx q r refl (dispatch-removed h) in
      (answer, ground (arith, handled, same))

-- The user switches on the row of an application, the daemon's rules are in order and have a Block
-- rule for its executable under the row's rule id, and the protocol carries the request and the
-- answer. The one command of the switch is acknowledged without a message, the daemon publishes
-- that the rule is gone, and the rules that it then has block the executable at no time.
pub switch_on-allows :
    (w : Wire) (dial : Dial) (row : AppRow) (id : ℕ) (e : Setting) (s : DaemonState)
    (rx : List Received) (rule : Rule) (store : RuleStore) (exe : FilePath) (t : ℕ)
    → row.rule_id ≡ some id
    → dial (remove_rule id) ≡ connected w.requests w.responses (dispatch e) s rx
    → Travels w.requests (remove_rule id)
    → Travels w.responses ok
    → IsValid s.rules
    → Rules.remove e.platform e.saving s.rules id ≡ some (rule, store)
    → rule.action ≡ block
    → path_beq rule.exe_path exe ≡ true
    → (switch_commands row true ≡ unblock id ∷ [])
      × (try_command w dial (unblock id) ≡ [])
      × (DaemonState.events (served w.requests w.responses e s (remove_rule id) rx)
          ≡ s.events ++ rule_removed id ∷ [])
      × (is_blocked
            (DaemonState.rules (served w.requests w.responses e s (remove_rule id) rx))
            exe
            t
          ≡ false)
unfolding switch_commands try_command send_command one_shot
switch_on-allows w dial row id e s rx rule store exe t x d q r v h b p =
    let (answer, state) = served-removed e s id rule store w rx h q r in
    (
      ground (arith, x),
      ground (arith, d, answer),
      ap (λ (z : DaemonState). z.events) state,
      rw state (
          ground
            (arith, b, p, is_blocked-remove e.platform e.saving s.rules store id rule exe t v h)),
    )
