-- ===== src/Client/Session.antt =====
-- A whole session of the graphical client: crates/gui/src/state.rs.
use mathlib.Core.Path.{subst}
use travelmode.Base.Map
use travelmode.Base.Map.{Map, get-map_values}
use travelmode.Base.{◌≡◌, true, List, [], ◌∷◌, some, Text, text_key, arith, Option-cases, inl, inr}
use travelmode.Types.{Rule, Status, NetworkInfo, AppUsage, ConnectionInfo, Event}
use travelmode.Client.{AppEntry, ClientState, apply_event, refresh_rule_flags}
use travelmode.Client.Flags.{
  IsFlagged, AreFlagged, apply_event-AreFlagged, refresh_rule_flags-AreFlagged,
}
use travelmode.Client.Snapshot.{
  add_conns, add_usages, settle, settle_app, apply_snapshot, tick, tick_app,
}

-- What happens to the client after its snapshot.
pub data Turn : Type 0 where
  arrived : Event → Turn
  ticked : Turn

unfoldable pub turns : List Turn → ClientState → ClientState
turns [] s = s
turns (arrived event ∷ ts) s = turns ts (apply_event event s)
turns (ticked ∷ ts) s = turns ts (tick s)

mapped-AreFlagged :
    (rules : List Rule) (f : AppEntry → AppEntry) (apps : Map Text AppEntry)
    → ((a : AppEntry) → IsFlagged rules a → IsFlagged rules (f a))
    → AreFlagged rules apps
    → AreFlagged rules (Map.map_values f apps)
mapped-AreFlagged rules f apps keeps h k app g = elim (Option-cases (Map.get k apps)) [
  | inl e ↦ absurd (ground (arith, get-map_values k f apps))
  | inr (a, e) ↦
      let same : f a ≡ app = ground (arith, get-map_values k f apps) in
      subst (IsFlagged rules) same (keeps a (h k a e))
]

settle-AreFlagged : (s : ClientState) → AreFlagged (settle s).rules (settle s).apps
unfolding settle refresh_rule_flags
settle-AreFlagged s =
    mapped-AreFlagged s.rules settle_app (refresh_rule_flags s).apps (λ a h. h)
      (refresh_rule_flags-AreFlagged s)

turns-AreFlagged :
    (ts : List Turn) (s : ClientState)
    → AreFlagged s.rules s.apps
    → AreFlagged (turns ts s).rules (turns ts s).apps
unfolding turns tick
turns-AreFlagged [] s h = h
turns-AreFlagged (arrived event ∷ ts) s h =
    turns-AreFlagged ts (apply_event event s) (apply_event-AreFlagged event s h)
turns-AreFlagged (ticked ∷ ts) s h =
    turns-AreFlagged ts (tick s) (mapped-AreFlagged s.rules tick_app s.apps (λ a f. f) h)

-- In every session, from its snapshot on and after any events and ticks, an application that is
-- shown is switched off exactly when a rule that the client knows blocks it, and then has the id
-- of such a rule.
pub session-AreFlagged :
    (status : Status) (network : NetworkInfo) (top : List AppUsage) (conns : List ConnectionInfo)
    (rules : List Rule) (s : ClientState) (ts : List Turn) (k : Text) (app : AppEntry)
    → Map.get k (turns ts (apply_snapshot status network top conns rules s)).apps ≡ some app
    → IsFlagged (turns ts (apply_snapshot status network top conns rules s)).rules app
unfolding apply_snapshot
session-AreFlagged status network top conns rules s ts =
    turns-AreFlagged ts (apply_snapshot status network top conns rules s) (
      settle-AreFlagged (
        add_conns conns (record s {
          connected = true;
          paused = status.paused;
          status = some status;
          network = some network;
          rules = rules;
          conns = [];
          conn_order = [];
          total_up = 0;
          total_down = 0;
          apps = add_usages top [];
        })))
