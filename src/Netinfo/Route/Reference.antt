-- ===== src/Netinfo/Route/Reference.antt =====
-- Which default route crates/daemon/src/netinfo.rs takes.
use travelmode.Base.Map.{Map}
use travelmode.Base.{
  ℕ, ◌≡◌, refl, Bool, true, false, List, [], ◌∷◌, map, none, arith, retain, is_some, if◌then◌else◌,
}
use travelmode.Types.{InterfaceInfo}
use travelmode.Netinfo.Route.{RouteMessage, is_default, is_v4, Choice, offer, choose_route}

-- The first that passes a test, or else another.
abbrev first_or : (Choice → Bool) → Choice → List Choice → Choice
first_or test other [] = other
first_or test other (c ∷ cs) = if test c then c else first_or test other cs

abbrev last_or : Choice → List Choice → Choice
last_or other [] = other
last_or other (c ∷ cs) = last_or c cs

abbrev has_gateway : Choice → Bool
has_gateway c = is_some c.0

abbrev has_v4 : Choice → Bool
has_v4 c = is_v4 c.0

-- The first IPv4 gateway; without one, the first gateway; without any, the last route.
abbrev pub preferred : Choice → List Choice → Choice
preferred other cs = first_or has_v4 (first_or has_gateway (last_or other cs) cs) cs

abbrev pub offers : Map ℕ InterfaceInfo → List RouteMessage → List Choice
offers links rs = map (offer links) (retain is_default rs)

-- A gateway that is chosen already gives way to an IPv4 one only.
choose_route-has_gateway :
    (links : Map ℕ InterfaceInfo) (rs : List RouteMessage) (chosen : Choice)
    → has_gateway chosen ≡ true
    → choose_route links rs chosen ≡ first_or has_v4 chosen (offers links rs)
unfolding choose_route
choose_route-has_gateway links [] chosen h = refl
choose_route-has_gateway links (r ∷ rs) chosen h =
    ground (arith, choose_route-has_gateway links rs chosen)

choose_route-none :
    (links : Map ℕ InterfaceInfo) (rs : List RouteMessage) (chosen : Choice)
    → has_gateway chosen ≡ false
    → choose_route links rs chosen ≡ preferred chosen (offers links rs)
unfolding choose_route
choose_route-none links [] chosen h = refl
choose_route-none links (r ∷ rs) chosen h = ground (
  arith,
  choose_route-none links rs chosen,
  choose_route-none links rs (offer links r),
  choose_route-has_gateway links rs (offer links r),
)

-- The loop over the routes takes, of the default routes of the main table, the first with an IPv4
-- gateway, without one the first with a gateway, and without any the last.
pub choose_route-preferred :
    (links : Map ℕ InterfaceInfo) (rs : List RouteMessage)
    → choose_route links rs (none, none) ≡ preferred (none, none) (offers links rs)
choose_route-preferred links rs = choose_route-none links rs (none, none) refl
