-- ===== src/Types.antt =====
-- The domain types shared by the daemon and its clients: crates/core/src/types.rs.
-- Times (`DateTime<Utc>`, `Instant`) are counts of nanoseconds; ports, ids and byte counters are
-- numbers whose width is stated where an operation can leave it.
use travelmode.Base.{ℕ, Bool, true, false, List, Option, Text, FilePath}

pub record ProcessInfo : Type 0 where
  pub pid : ℕ
  pub name : Text
  pub exe : Option FilePath
  pub user : Option Text
  pub ppid : ℕ

pub data Protocol : Type 0 where
  tcp udp other : Protocol

abbrev pub protocol_beq : Protocol → Protocol → Bool
protocol_beq tcp tcp = true
protocol_beq udp udp = true
protocol_beq other other = true
protocol_beq _ _ = false

-- An IPv4 address by its four bytes, an IPv6 address by its sixteen.
pub data IpAddr : Type 0 where
  v4 : ℕ → ℕ → ℕ → ℕ → IpAddr
  v6 : List ℕ → IpAddr

pub record ConnectionInfo : Type 0 where
  pub key : Text
  pub protocol : Protocol
  pub local_addr : IpAddr
  pub local_port : ℕ
  pub remote_addr : IpAddr
  pub remote_port : ℕ
  pub bytes_sent : ℕ
  pub bytes_recv : ℕ
  pub pid : Option ℕ
  pub process_name : Option Text
  pub exe : Option FilePath
  pub started : ℕ
  pub last_seen : ℕ

pub record AppUsage : Type 0 where
  pub name : Text
  pub exe : Option FilePath
  pub bytes_sent : ℕ
  pub bytes_recv : ℕ
  pub connections : ℕ
  pub blocked : Bool

pub data InterfaceKind : Type 0 where
  ethernet wifi vpn loopback other_kind : InterfaceKind

pub record InterfaceInfo : Type 0 where
  pub name : Text
  pub kind : InterfaceKind
  pub mac : Option Text
  pub addrs : List IpAddr
  pub is_up : Bool

pub record NetworkInfo : Type 0 where
  pub interfaces : List InterfaceInfo
  pub gateway : Option IpAddr
  pub dns_servers : List IpAddr
  pub ssid : Option Text
  pub metered : Option Bool
  pub primary_interface : Option Text

pub data RuleAction : Type 0 where
  allow block : RuleAction

abbrev pub action_beq : RuleAction → RuleAction → Bool
action_beq allow allow = true
action_beq block block = true
action_beq _ _ = false

pub record Rule : Type 0 where
  pub id : ℕ
  pub name : Text
  pub exe_path : FilePath
  pub action : RuleAction
  pub persistent : Bool
  pub expires_at : Option ℕ
  pub profile : Text
  pub updated_at : ℕ

pub record RuleInput : Type 0 where
  pub name : Text
  pub exe_path : FilePath
  pub action : RuleAction
  pub persistent : Bool
  pub ttl_secs : Option ℕ

pub record Status : Type 0 where
  pub version : Text
  pub uptime_secs : ℕ
  pub paused : Bool
  pub filtering_active : Bool
  pub rules_count : ℕ
  pub tracked_connections : ℕ
  pub tracked_processes : ℕ

pub data Event : Type 0 where
  connection_opened : ConnectionInfo → Event
  connection_updated : ConnectionInfo → Event
  connection_closed : Text → Event
  process_started : ProcessInfo → Event
  process_exited : ℕ → Event
  rule_added : Rule → Event
  rule_removed : ℕ → Event
  paused_changed : Bool → Event
  network_changed : NetworkInfo → Event
