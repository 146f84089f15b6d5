-- ===== src/Netinfo/Manager.antt =====
-- The wireless network and the metered flag: `nm_info` of crates/daemon/src/netinfo.rs, over what
-- NetworkManager answers on D-Bus. An object that is not reachable fails the whole query; a property
-- that cannot be read is `none`.
use travelmode.Base.{
  ℕ, Bool, not, ◌||◌, List, [], ◌∷◌, Option, none, some, Text, text, text_beq, nat_beq,
  if◌then◌else◌,
}

pub record Device : Type 0 where
  pub reachable : Bool
  pub access_point : Option Text
  pub access_point_reachable : Bool
  pub ssid : Option (List ℕ)

pub record ActiveConnection : Type 0 where
  pub reachable : Bool
  pub conn_type : Option Text
  pub metered : Option ℕ
  pub devices : Option (List Device)

-- 1 is yes, 3 a guess of yes.
abbrev pub is_metered : ℕ → Bool
is_metered m = nat_beq m 1 || nat_beq m 3

abbrev first_metered : Option Bool → Option ℕ → Option Bool
first_metered (some m) answer = some m
first_metered none none = none
first_metered none (some m) = some (is_metered m)

-- The name, the metered flag; the outer `none` is an error.
abbrev pub Answer : Type 0
Answer = Option Text × Option Bool

module _ (lossy : List ℕ → Text) where
  abbrev named : Option (List ℕ) → Option (Option Text) → Option (Option Text)
  named none rest = rest
  named (some raw) rest = some (some (lossy raw))

  abbrev at_access_point : Device → Option Text → Option (Option Text) → Option (Option Text)
  at_access_point d none rest = rest
  at_access_point d (some path) rest =
      if text_beq path (text "/")
      then rest
      else if d.access_point_reachable
      then named d.ssid rest
      else none

  -- The loop over devices, up to the first name.
  unfoldable pub scan_devices : List Device → Option (Option Text)
  scan_devices [] = some none
  scan_devices (d ∷ ds) =
      let rest = scan_devices ds in
      if d.reachable then at_access_point d d.access_point rest else none

  abbrev wireless : Option Text → Text → Option (List Device) → Option (Option Text)
  wireless (some ssid) conn_type devices = some (some ssid)
  wireless none conn_type none = some none
  wireless none conn_type (some ds) =
      if text_beq conn_type (text "802-11-wireless") then scan_devices ds else some none

  abbrev and_then : (Answer → Option Answer) → Option Bool → Option (Option Text) → Option Answer
  and_then next metered none = none
  and_then next metered (some ssid) = next (ssid, metered)

  unfoldable pub nm_info_inner : List ActiveConnection → Answer → Option Answer
  unfolding scan_devices
  nm_info_inner [] found = some found
  nm_info_inner (ac ∷ acs) (ssid, metered) = if not ac.reachable then none else elim ac.conn_type [
    | none ↦ nm_info_inner acs (ssid, metered)
    | some conn_type ↦
        and_then (nm_info_inner acs) (first_metered metered ac.metered)
          (wireless ssid conn_type ac.devices)
  ]

  -- The bus, or the list of connections, may be out of reach.
  unfoldable pub nm_info : Option (List ActiveConnection) → Answer
  unfolding nm_info_inner
  nm_info none = (none, none)
  nm_info (some acs) = elim (nm_info_inner acs (none, none)) [ none ↦ (none, none) | some v ↦ v ]
