-- ===== src/Cli/Print.antt =====
-- The laid out output of crates/cli/src/main.rs, as lines. Floating-point numbers,
-- times as chrono shows them, and addresses as std does are parameters of `Formats`.
use travelmode.Base.{
  ℕ, Bool, List, [], ◌∷◌, ◌++◌, map, Option, none, some, Text, text, FilePath, is_empty,
  if◌then◌else◌,
}
use travelmode.Base.Parsing.{show_ℕ}
use mathlib.Core.Option
use travelmode.Types.{
  Status, NetworkInfo, InterfaceInfo, InterfaceKind, ethernet, wifi, vpn, loopback, other_kind,
  ProcessInfo, ConnectionInfo, Protocol, tcp, udp, other, AppUsage, Rule, RuleAction, allow, block,
  IpAddr,
}
use travelmode.Ipc.{
  Response, pong, status, network, processes, connections, top, rules, ok, error, event,
}
use travelmode.Base.Floats.{Floats}
use travelmode.Cli.Bytes.{human_bytes}
use travelmode.Cli.Table.{print_table}

pub record Formats : Type 0 where
  pub floats : Floats
  pub show_time : ℕ → Text
  pub show_addr : IpAddr → Text
  pub debug : Response → Text

abbrev yes_no : Bool → Text
yes_no b = if b then text "yes" else text "no"

abbrev or_dash : Option Text → Text
or_dash t = Option.get_or t (text "-")

-- `join(", ")`
abbrev comma_separated : List Text → Text
comma_separated [] = []
comma_separated (t ∷ []) = t
comma_separated (t ∷ u ∷ ts) = t ++ text ", " ++ comma_separated (u ∷ ts)

-- Lower-cased `Debug` names.
abbrev kind_name : InterfaceKind → Text
kind_name ethernet = text "ethernet"
kind_name wifi = text "wifi"
kind_name vpn = text "vpn"
kind_name loopback = text "loopback"
kind_name other_kind = text "other"

abbrev pub protocol_name : Protocol → Text
protocol_name tcp = text "tcp"
protocol_name udp = text "udp"
protocol_name other = text "other"

abbrev action_name : RuleAction → Text
action_name allow = text "allow"
action_name block = text "block"

unfoldable pub print_status : Status → List Text
print_status s =
    (text "travelmoded " ++ s.version)
    ∷ (text "  uptime:              " ++ show_ℕ s.uptime_secs ++ text "s")
    ∷ (text "  paused:              " ++ yes_no s.paused)
    ∷ (text "  filtering:           "
        ++ (if s.filtering_active then text "active" else text "inactive"))
    ∷ (text "  rules:               " ++ show_ℕ s.rules_count)
    ∷ (text "  tracked connections: " ++ show_ℕ s.tracked_connections)
    ∷ (text "  tracked processes:   " ++ show_ℕ s.tracked_processes)
    ∷ []

abbrev when_some : {A : Type 0} → Option A → (A → Text) → List Text
when_some none show = []
when_some (some a) show = show a ∷ []

module _ (f : Formats) where
  abbrev interface_row : InterfaceInfo → List Text
  interface_row i =
      i.name
      ∷ kind_name i.kind
      ∷ (if i.is_up then text "up" else text "down")
      ∷ or_dash i.mac
      ∷ comma_separated (map f.show_addr i.addrs)
      ∷ []

  abbrev dns_text : List IpAddr → Text
  dns_text servers =
      if is_empty servers then text "-" else comma_separated (map f.show_addr servers)

  unfoldable pub print_network : NetworkInfo → List Text
  unfolding print_table
  print_network n =
      when_some n.ssid (λ ssid. text "SSID:    " ++ ssid)
      ++ (when_some n.metered (λ metered. text "Metered: " ++ yes_no metered)
          ++ ((text "Gateway: " ++ or_dash (Option.map f.show_addr n.gateway))
              ∷ (text "Primary: " ++ or_dash n.primary_interface)
              ∷ (text "DNS:     " ++ dns_text n.dns_servers)
              ∷ []
              ∷ print_table 5 (
                  (text "NAME" ∷ text "KIND" ∷ text "STATE" ∷ text "MAC" ∷ text "ADDRESSES" ∷ [])
                  ∷ map interface_row n.interfaces)))

  abbrev process_row : ProcessInfo → List Text
  process_row p =
      show_ℕ p.pid
      ∷ p.name
      ∷ or_dash p.user
      ∷ or_dash (Option.map (λ (e : FilePath). e.display) p.exe)
      ∷ []

  unfoldable pub print_processes : List ProcessInfo → List Text
  unfolding print_table
  print_processes ps =
      print_table 4
        ((text "PID" ∷ text "NAME" ∷ text "USER" ∷ text "EXE" ∷ []) ∷ map process_row ps)

  abbrev connection_row : ConnectionInfo → List Text
  connection_row c =
      Option.get_or c.process_name (text "?")
      ∷ protocol_name c.protocol
      ∷ (f.show_addr c.local_addr ++ b':' ∷ show_ℕ c.local_port)
      ∷ (f.show_addr c.remote_addr ++ b':' ∷ show_ℕ c.remote_port)
      ∷ human_bytes f.floats c.bytes_sent
      ∷ human_bytes f.floats c.bytes_recv
      ∷ []

  unfoldable pub print_connections : List ConnectionInfo → List Text
  unfolding print_table
  print_connections cs = print_table 6 (
      (text "PROCESS"
        ∷ text "PROTO"
        ∷ text "LOCAL"
        ∷ text "REMOTE"
        ∷ text "SENT"
        ∷ text "RECV"
        ∷ [])
      ∷ map connection_row cs)

  abbrev app_row : AppUsage → List Text
  app_row a =
      a.name
      ∷ human_bytes f.floats a.bytes_sent
      ∷ human_bytes f.floats a.bytes_recv
      ∷ show_ℕ a.connections
      ∷ (if a.blocked then text "blocked" else text "allowed")
      ∷ []

  unfoldable pub print_top : List AppUsage → List Text
  unfolding print_table
  print_top apps = print_table 5 (
      (text "APP" ∷ text "SENT" ∷ text "RECV" ∷ text "CONNS" ∷ text "STATE" ∷ [])
      ∷ map app_row apps)

  abbrev rule_row : Rule → List Text
  rule_row r =
      show_ℕ r.id
      ∷ r.name
      ∷ action_name r.action
      ∷ r.exe_path.display
      ∷ yes_no r.persistent
      ∷ or_dash (Option.map f.show_time r.expires_at)
      ∷ []

  unfoldable pub print_rules : List Rule → List Text
  unfolding print_table
  print_rules rs = print_table 6 (
      (text "ID" ∷ text "NAME" ∷ text "ACTION" ∷ text "EXE" ∷ text "PERSIST" ∷ text "EXPIRES" ∷ [])
      ∷ map rule_row rs)

  -- The lines on standard output, and those on standard error.
  unfoldable pub print_pretty : Response → List Text × List Text
  unfolding print_status print_network print_processes print_connections print_top print_rules
  print_pretty (status s) = (print_status s, [])
  print_pretty (network n) = (print_network n, [])
  print_pretty (processes ps) = (print_processes ps, [])
  print_pretty (connections cs) = (print_connections cs, [])
  print_pretty (top apps) = (print_top apps, [])
  print_pretty (rules rs) = (print_rules rs, [])
  print_pretty (error message) = ([], (text "daemon error: " ++ message) ∷ [])
  print_pretty pong = (f.debug pong ∷ [], [])
  print_pretty ok = (f.debug ok ∷ [], [])
  print_pretty (event e) = (f.debug (event e) ∷ [], [])
