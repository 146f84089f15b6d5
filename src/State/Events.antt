-- ===== src/State/Events.antt =====
-- What a listener makes of the events that crates/daemon/src/state.rs publishes.
use travelmode.Base.{◌≡◌, refl, List, [], ◌∷◌, ◌++◌}
use travelmode.Types.{Event}

unfoldable pub fold_events : {A : Type 0} → (Event → A → A) → List Event → A → A
fold_events heard [] a = a
fold_events heard (e ∷ es) a = fold_events heard es (heard e a)

pub fold_events-append :
    {A : Type 0} (heard : Event → A → A) (es : List Event) (e : Event) (a : A)
    → fold_events heard (es ++ e ∷ []) a ≡ heard e (fold_events heard es a)
unfolding fold_events
fold_events-append heard [] e a = refl
fold_events-append heard (d ∷ es) e a = fold_events-append heard es e (heard d a)
