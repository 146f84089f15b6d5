-- ===== src/Netinfo/Route.antt =====
-- The default route: the last loop of `netlink_info` of crates/daemon/src/netinfo.rs.
pub mod Reference
use travelmode.Base.Map
use travelmode.Base.Map.{Map}
use travelmode.Base.{
  ℕ, Bool, true, false, not, ◌&&◌, List, [], ◌∷◌, Option, none, some, Text, nat_beq, nat_key,
  is_some, if◌then◌else◌,
}
use travelmode.Types.{IpAddr, v4, v6, InterfaceInfo}

pub data RouteAttribute : Type 0 where
  gateway : IpAddr → RouteAttribute
  oif : ℕ → RouteAttribute
  other_route : RouteAttribute

pub record RouteMessage : Type 0 where
  pub table : ℕ
  pub is_unicast : Bool
  pub destination_prefix_length : ℕ
  pub attributes : List RouteAttribute

-- `RT_TABLE_MAIN`
abbrev pub main_table : ℕ
main_table = 254

abbrev pub is_default : RouteMessage → Bool
is_default r = nat_beq r.table main_table && r.is_unicast && nat_beq r.destination_prefix_length 0

-- The gateway and the outgoing interface, from the last attribute of each.
abbrev pub route_fields : List RouteAttribute → Option IpAddr × Option ℕ → Option IpAddr × Option ℕ
route_fields [] (gw, idx) = (gw, idx)
route_fields (gateway ip ∷ attrs) (gw, idx) = route_fields attrs (some ip, idx)
route_fields (oif i ∷ attrs) (gw, idx) = route_fields attrs (gw, some i)
route_fields (other_route ∷ attrs) (gw, idx) = route_fields attrs (gw, idx)

abbrev pub is_v4 : Option IpAddr → Bool
is_v4 none = false
is_v4 (some (v4 a b c d)) = true
is_v4 (some (v6 bs)) = false

-- The gateway and the name of the primary interface.
abbrev pub Choice : Type 0
Choice = Option IpAddr × Option Text

abbrev name_of : Option InterfaceInfo → Option Text
name_of none = none
name_of (some i) = some i.name

abbrev pub interface_name : Map ℕ InterfaceInfo → Option ℕ → Option Text
interface_name links none = none
interface_name links (some idx) = name_of (Map.get idx links)

-- What one default route offers.
abbrev pub offer : Map ℕ InterfaceInfo → RouteMessage → Choice
offer links r =
    let (gw, idx) = route_fields r.attributes (none, none) in (gw, interface_name links idx)

unfoldable pub choose_route : Map ℕ InterfaceInfo → List RouteMessage → Choice → Choice
choose_route links [] chosen = chosen
choose_route links (r ∷ rs) chosen =
    let rest =
      choose_route links rs
        (if is_default r && not (is_some chosen.0) then offer links r else chosen) in
    if is_default r && is_v4 (offer links r).0 then offer links r else rest
