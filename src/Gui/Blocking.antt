-- ===== src/Gui/Blocking.antt =====
-- Flipping a light switch off, from crates/gui/src/pages/applications.rs through
-- crates/gui/src/client.rs and the daemon, and back to the page by the event.
use mathlib.Core.Path.{subst}
use travelmode.Base.Map
use travelmode.Base.{
  ◌≡◌, ◌∙◌, refl, ap, Bool, true, false, not, ◌&&◌, List, [], ◌∷◌, ◌++◌, none, some, Text, FilePath,
  text_key, arith, any-append, is_some, retain, nat_beq, path_beq, path_beq_refl,
}
use travelmode.Types.{Rule, RuleInput, block, action_beq, rule_added}
use travelmode.Rules.{new_rule}
use travelmode.State.{DaemonState}
use travelmode.Ipc.{add_rule, ok}
use travelmode.Ipc.Frames.{Travels}
use travelmode.Firewall.Verdict.{Arrival}
use travelmode.Daemon.{Setting, dispatch}
use travelmode.Daemon.Blocking.{IsFrom}
use travelmode.Daemon.Tasks.Clients.{find-any}
use travelmode.Server.{Received}
use travelmode.Server.Exchange.{connected}
use travelmode.Server.AddRule.{Added, IsDropped, served, served-Added, served-drops, dispatch-Added}
use travelmode.Client.{ClientState, AppEntry, rule_for, refresh_rule_flags, apply_event}
use travelmode.Client.Flags.{refresh_rule_flags-AreFlagged}
use travelmode.Client.Apps.{apply_event-Distinct}
use travelmode.Gui.{Wire, Dial, block_app, block_input, send_command, one_shot, try_command}
use travelmode.Gui.Pages.{Formats}
use travelmode.Gui.Pages.Applications.{AppRow, AppsPage, switch_commands, update, same}
use travelmode.Gui.Pages.Applications.Placed.{InPlace, is_in, placed}
use travelmode.Gui.Pages.Applications.Shown.{Agrees, update-InPlace, update-Agrees}

-- The row of the application is switched off, and stands in the section of the blocked ones.
pub record IsSwitchedOff (k : Text) (page : AppsPage) : Type 0 where
  pub row : AppRow
  pub found : Map.get k page.rows ≡ some row
  pub off : row.switch_active ≡ false
  pub grouped : is_in k page.blocked ≡ true

-- What follows from the event of a new Block rule.
module _ (f : Formats) (cs : ClientState) (page : AppsPage) (rule : Rule) where
  added_block-blocked :
      (k : Text) (app : AppEntry)
      → rule.action ≡ block
      → Map.get k (apply_event (rule_added rule) cs).apps ≡ some app
      → app.exe ≡ some rule.exe_path
      → app.blocked ≡ true
  unfolding apply_event refresh_rule_flags
  added_block-blocked k app b g e =
      let others : List Rule = retain (λ r. not (nat_beq r.id rule.id)) cs.rules in
      let points : Rule → Bool =
        λ r. action_beq r.action block && path_beq r.exe_path rule.exe_path in
      let flagged : app.blocked ≡ is_some (rule_for (others ++ rule ∷ []) app.exe) =
        (refresh_rule_flags-AreFlagged (record cs { rules = others ++ rule ∷ [] }) k app g).0 in
      ground (
        arith,
        flagged,
        ap (rule_for (others ++ rule ∷ [])) e,
        find-any points (others ++ rule ∷ []),
        any-append points others (rule ∷ []),
        path_beq_refl rule.exe_path,
      )

  pub rule_added-IsSwitchedOff :
      (k : Text) (app : AppEntry)
      → InPlace page
      → Map.Distinct cs.apps
      → rule.action ≡ block
      → Map.get k (apply_event (rule_added rule) cs).apps ≡ some app
      → app.exe ≡ some rule.exe_path
      → IsSwitchedOff k (update f (apply_event (rule_added rule) cs) page)
  rule_added-IsSwitchedOff k app h d b g e =
      let state : ClientState = apply_event (rule_added rule) cs in
      let (row, at, shows) =
        subst (λ o. Agrees f o (Map.get k (update f state page).rows)) g
          (update-Agrees f state page (apply_event-Distinct (rule_added rule) cs d) k) in
      record {
        row = row;
        found = at;
        off = ground (arith, shows.switch, added_block-blocked k app b g e);
        grouped =
            update-InPlace f state page h k true
            ∙ ap (placed true) at
            ∙ ap (λ b. same b true) (shows.group ∙ added_block-blocked k app b g e);
      }

-- The user switches off the row of an application whose executable is known, while filtering is on,
-- and the protocol carries the request and the answer. The one command of the switch is
-- acknowledged without a message, the daemon publishes the new rule, in its state every packet that
-- is attributed to the executable is then dropped and counted, and once a client with distinct
-- applications and a page in order has handled the event, an application of that executable that it
-- lists is switched off in the section of the blocked.
pub switch_off-drops :
    (w : Wire) (dial : Dial) (f : Formats) (row : AppRow) (exe : FilePath) (e : Setting)
    (s : DaemonState) (rx : List Received) (p : Arrival) (cs : ClientState) (page : AppsPage)
    (k : Text) (app : AppEntry)
    → row.exe ≡ some exe
    → dial (add_rule (block_input row.title exe))
      ≡ connected w.requests w.responses (dispatch e) s rx
    → Travels w.requests (add_rule (block_input row.title exe))
    → Travels w.responses ok
    → s.paused ≡ false
    → IsFrom (served w.requests w.responses e s (add_rule (block_input row.title exe)) rx) p exe
    → InPlace page
    → Map.Distinct cs.apps
    → Map.get k (
        ClientState.apps (
          apply_event
            (rule_added (new_rule (block_input row.title exe) e.now none s.rules.next_id))
            cs))
      ≡ some app
    → app.exe ≡ some exe
    → (switch_commands row false ≡ block_app row.title exe ∷ [])
      × (try_command w dial (block_app row.title exe) ≡ [])
      × (DaemonState.events
            (served w.requests w.responses e s (add_rule (block_input row.title exe)) rx)
          ≡ s.events
            ++ rule_added (new_rule (block_input row.title exe) e.now none s.rules.next_id) ∷ [])
      × IsDropped e.addresses
          (served w.requests w.responses e s (add_rule (block_input row.title exe)) rx)
          p
      × IsSwitchedOff k (
          update f
            (apply_event
              (rule_added (new_rule (block_input row.title exe) e.now none s.rules.next_id))
              cs)
            page)
unfolding switch_commands try_command send_command one_shot
switch_off-drops w dial f row exe e s rx p cs page k app x d q r on from h ds g a =
    let input : RuleInput = block_input row.title exe in
    let added : Added e s input = dispatch-Added e s input refl in
    let (answer, state) = served-Added w.requests w.responses e s input rx added q r in
    (
      ground (arith, x),
      ground (arith, d, answer),
      ap (λ (t : DaemonState). t.events) state ∙ added.told,
      served-drops w.requests w.responses e s input rx p exe refl refl (path_beq_refl exe) q r on
          from,
      rule_added-IsSwitchedOff f cs page (new_rule input e.now none s.rules.next_id) k app h ds refl
          g a,
    )
