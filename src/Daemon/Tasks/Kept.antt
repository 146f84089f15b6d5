-- ===== src/Daemon/Tasks/Kept.antt =====
-- What a step of the daemon leaves alone: a part of the tables, or the nftables handle, of
-- crates/daemon/src/state.rs, with
-- what events have told of it.
use travelmode.Base.Map.{Map}
use travelmode.Base.{ℕ, ◌≡◌, ◌∙◌, refl, ap, Option, Text, Option-cases, inl, inr}
use travelmode.Types.{Protocol, Event, ProcessInfo, ConnectionInfo}
use travelmode.World.{World}
use travelmode.Rules.{RuleStore}
use travelmode.State.{DaemonState, publish, attribute}
use travelmode.State.Events.{fold_events, fold_events-append}
use travelmode.Attrib.{lookup}

-- Who follows the events from a start, and the part of the tables that it stands for.
pub record Listener (A F : Type 0) : Type 0 where
  pub heard : Event → A → A
  pub start : A
  pub view : RuleStore → Map ℕ ProcessInfo → Map Text ConnectionInfo → Option ℕ → F

module _ {A F : Type 0} (l : Listener A F) where
  abbrev pub told : DaemonState → A
  told s = fold_events l.heard s.events l.start

  abbrev pub viewed : DaemonState → F
  viewed s = l.view s.rules s.processes s.connections s.firewall

  -- The step leaves the listener's tables alone, and its events say nothing about them.
  pub record Kept (s s' : DaemonState) : Type 0 where
    pub same_told : told s' ≡ told s
    pub same_view : viewed s' ≡ viewed s

  pub Kept-refl : (s : DaemonState) → Kept s s
  Kept-refl s = record { same_told = refl; same_view = refl }

  pub Kept-trans : (s t u : DaemonState) → Kept s t → Kept t u → Kept s u
  Kept-trans s t u h k = record {
    same_told = k.same_told ∙ h.same_told;
    same_view = k.same_view ∙ h.same_view;
  }

  -- States that differ in neither the tables nor the events.
  pub alike-Kept : (s s' : DaemonState) → s'.events ≡ s.events → viewed s' ≡ viewed s → Kept s s'
  alike-Kept s s' e v = record {
    same_told = ap (λ es. fold_events l.heard es l.start) e;
    same_view = v;
  }

  -- An event that the listener ignores, published with a change that it does not see.
  pub publish-Kept :
      (e : Event) (s s' : DaemonState)
      → ((m : A) → l.heard e m ≡ m)
      → s'.events ≡ s.events
      → viewed s' ≡ viewed s
      → Kept s (publish e s')
  publish-Kept e s s' h es v = record {
    same_told =
        fold_events-append l.heard s'.events e l.start
        ∙ h (told s')
        ∙ ap (λ ds. fold_events l.heard ds l.start) es;
    same_view = v;
  }

  -- Attribution touches its own cache alone.
  pub attribute-Kept :
      (w : World) (s : DaemonState) (proto : Protocol) (port : ℕ)
      → Kept s (attribute w s proto port).1
  unfolding attribute
  attribute-Kept w s proto port = elim (Option-cases (lookup w s.attrib proto port).0) [
    | inl e ↦ rw (e, attribute) (record { same_told = refl; same_view = refl })
    | inr (pid, e) ↦ rw (e, attribute) (record { same_told = refl; same_view = refl })
  ]
