-- ===== src/Netinfo.antt =====
-- The network snapshot: crates/daemon/src/netinfo.rs. What netlink and NetworkManager answer are
-- lists of messages, in the order in which they come, and a request that fails is a `none`.
pub mod Manager
pub mod Route
pub mod Dns
use travelmode.Base.Map
use travelmode.Base.Map.{Map}
use travelmode.Base.{
  ℕ, Bool, true, false, not, ◌&&◌, ◌||◌, ◌/◌, ◌%◌, ◌+◌, List, [], ◌∷◌, ◌++◌, map, Option, none,
  some, Text, text, text_beq, is_empty, is_some, length, nat_beq, nat_key, ltb, any, if◌then◌else◌,
}
use travelmode.Base.Parsing.{strip_prefix}
use travelmode.Types.{
  InterfaceKind, ethernet, wifi, vpn, loopback, other_kind, InterfaceInfo, NetworkInfo, IpAddr, v4,
  v6,
}
use travelmode.Netinfo.Manager.{ActiveConnection, nm_info}
use travelmode.Netinfo.Route.{RouteMessage, Choice, choose_route}
use travelmode.Netinfo.Dns.{read_dns_servers}

-- A hexadecimal digit, and `{b:02x}` of a byte.
abbrev hex_digit : ℕ → ℕ
hex_digit d = if ltb d 10 then b'0' + d else 87 + d

abbrev pub hex_byte : ℕ → Text
hex_byte b = hex_digit (b / 16) ∷ hex_digit (b % 16) ∷ []

-- `join(":")`
abbrev colon_separated : List Text → Text
colon_separated [] = []
colon_separated (t ∷ []) = t
colon_separated (t ∷ u ∷ ts) = t ++ b':' ∷ colon_separated (u ∷ ts)

unfoldable pub format_mac : List ℕ → Option Text
format_mac bytes =
    if nat_beq (length bytes) 6 then some (colon_separated (map hex_byte bytes)) else none

starts_with : Text → Text → Bool
starts_with p t = is_some (strip_prefix p t)

-- `is_wireless` is whether the interface's `wireless` directory exists in /sys.
unfoldable pub classify_interface : (Text → Bool) → Text → Bool → InterfaceKind
unfolding starts_with
classify_interface is_wireless name is_loopback =
    if is_loopback
    then loopback
    else if is_wireless name
    then wifi
    else if starts_with (text "tun") name
        || starts_with (text "wg") name
        || starts_with (text "ppp") name
    then vpn
    else if starts_with (text "e") name
    then ethernet
    else other_kind

-- The messages of netlink, by the attributes that the program reads.
pub data LinkAttribute : Type 0 where
  if_name : Text → LinkAttribute
  hardware : List ℕ → LinkAttribute
  other_link : LinkAttribute

pub record LinkMessage : Type 0 where
  pub index : ℕ
  pub attributes : List LinkAttribute
  pub is_loopback : Bool
  pub is_up : Bool

pub data AddressAttribute : Type 0 where
  local_addr address : IpAddr → AddressAttribute
  other_address : AddressAttribute

pub record AddressMessage : Type 0 where
  pub index : ℕ
  pub attributes : List AddressAttribute

-- The name and the MAC, from the last attribute of each.
abbrev pub link_fields : List LinkAttribute → Text × Option Text → Text × Option Text
link_fields [] (name, mac) = (name, mac)
link_fields (if_name n ∷ attrs) (name, mac) = link_fields attrs (n, mac)
link_fields (hardware bytes ∷ attrs) (name, mac) = link_fields attrs (name, format_mac bytes)
link_fields (other_link ∷ attrs) (name, mac) = link_fields attrs (name, mac)

abbrev pub Links : Type 0
Links = Map ℕ InterfaceInfo

unfoldable pub add_link : (Text → Bool) → LinkMessage → Links → Links
unfolding classify_interface
add_link is_wireless msg links =
    let (name, mac) = link_fields msg.attributes ([], none) in
    if is_empty name
    then links
    else Map.insert msg.index
        (record {
          name = name;
          kind = classify_interface is_wireless name msg.is_loopback;
          mac = mac;
          addrs = [];
          is_up = msg.is_up;
        })
        links

unfoldable pub add_links : (Text → Bool) → List LinkMessage → Links → Links
unfolding add_link
add_links is_wireless [] links = links
add_links is_wireless (msg ∷ msgs) links =
    add_links is_wireless msgs (add_link is_wireless msg links)

abbrev bytes_beq : List ℕ → List ℕ → Bool
bytes_beq = text_beq

abbrev pub addr_beq : IpAddr → IpAddr → Bool
addr_beq (v4 a b c d) (v4 a' b' c' d') =
    nat_beq a a' && nat_beq b b' && nat_beq c c' && nat_beq d d'
addr_beq (v6 bs) (v6 cs) = bytes_beq bs cs
addr_beq (v4 a b c d) (v6 cs) = false
addr_beq (v6 bs) (v4 a b c d) = false

-- The local addresses are pushed as they come; the other address is kept for the end.
abbrev pub address_fields :
    List AddressAttribute → List IpAddr × Option IpAddr → List IpAddr × Option IpAddr
address_fields [] (addrs, link_local) = (addrs, link_local)
address_fields (local_addr ip ∷ attrs) (addrs, link_local) =
    address_fields attrs (addrs ++ ip ∷ [], link_local)
address_fields (address ip ∷ attrs) (addrs, link_local) = address_fields attrs (addrs, some ip)
address_fields (other_address ∷ attrs) (addrs, link_local) =
    address_fields attrs (addrs, link_local)

abbrev pub keep_address : List IpAddr × Option IpAddr → List IpAddr
keep_address (addrs, none) = addrs
keep_address (addrs, some ip) = if any (addr_beq ip) addrs then addrs else addrs ++ ip ∷ []

unfoldable pub add_address : AddressMessage → Links → Links
add_address msg links = elim (Map.get msg.index links) [
  | none ↦ links
  | some iface ↦
      Map.insert msg.index
        (record iface { addrs = keep_address (address_fields msg.attributes (iface.addrs, none)) })
        links
]

unfoldable pub add_addresses : List AddressMessage → Links → Links
unfolding add_address
add_addresses [] links = links
add_addresses (msg ∷ msgs) links = add_addresses msgs (add_address msg links)

-- What netlink answers.
pub record Netlink : Type 0 where
  pub links : List LinkMessage
  pub addresses : List AddressMessage
  pub routes : List RouteMessage

abbrev pub NetlinkInfo : Type 0
NetlinkInfo = List InterfaceInfo × Option IpAddr × Option Text

unfoldable pub netlink_info : (Text → Bool) → Netlink → NetlinkInfo
unfolding add_links add_addresses choose_route
netlink_info is_wireless n =
    let links : Links = add_addresses n.addresses (add_links is_wireless n.links []) in
    let choice : Choice = choose_route links n.routes (none, none) in
    (Map.values links, choice.0, choice.1)

-- `snapshot`; netlink's answers are `none` if a query fails, and so are NetworkManager's. `lossy` is
-- `String::from_utf8_lossy`.
unfoldable pub snapshot :
    (Text → Bool)
    → (Text → Option IpAddr)
    → (List ℕ → Text)
    → Option Netlink
    → Option Text
    → Option (List ActiveConnection)
    → NetworkInfo
unfolding netlink_info read_dns_servers nm_info
snapshot is_wireless parse lossy netlink resolv_conf manager =
    let info : NetlinkInfo = elim netlink [
      | none ↦ ([], none, none)
      | some n ↦ netlink_info is_wireless n
    ] in
    let (ssid, metered) = nm_info lossy manager in
    record {
      interfaces = info.0;
      gateway = info.1;
      dns_servers = read_dns_servers parse resolv_conf;
      ssid = ssid;
      metered = metered;
      primary_interface = info.2;
    }
