-- ===== src/Gui/Pages/Stale.antt =====
-- Which rows of a page are stale: the same lines of crates/gui/src/pages/applications.rs and
-- crates/gui/src/pages/connections.rs.
use travelmode.Base.Map
use travelmode.Base.Map.{Map, get_congr}
use travelmode.Base.{
  ◌≡◌, refl, true, false, not, [], ◌∷◌, Text, text_key, text_beq, arith, any, retain,
}

pub any-stale :
    {V W : Type 0} (rows : Map Text V) (live : Map Text W) (k : Text)
    → Map.contains_key k live ≡ false
    → any (λ j. text_beq j k) (retain (λ j. not (Map.contains_key j live)) (Map.keys rows))
      ≡ Map.contains_key k rows
unfolding Map.keys Map.contains_key Map.get
any-stale [] live k h = refl
any-stale ((j, row) ∷ rows) live k h = ground (arith, any-stale rows live k h, get_congr j k live)

pub any-stale_kept :
    {V W : Type 0} (rows : Map Text V) (live : Map Text W) (k : Text)
    → Map.contains_key k live ≡ true
    → any (λ j. text_beq j k) (retain (λ j. not (Map.contains_key j live)) (Map.keys rows)) ≡ false
unfolding Map.keys Map.contains_key Map.get
any-stale_kept [] live k h = refl
any-stale_kept ((j, row) ∷ rows) live k h =
    ground (arith, any-stale_kept rows live k h, get_congr j k live)
