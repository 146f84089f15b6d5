-- ===== src/Netinfo/Dns.antt =====
-- The DNS servers of /etc/resolv.conf: `read_dns_servers` and `parse_resolv_conf` of
-- crates/daemon/src/netinfo.rs. `parse` is `str::parse` of an address.
use travelmode.Base.{
  ◌||◌, List, [], ◌∷◌, Option, none, some, Text, text, text_beq, nat_beq, split_by, if◌then◌else◌,
}
use travelmode.Types.{IpAddr}
use travelmode.Base.Parsing.{lines, split_whitespace}

-- The part of a line before a comment. Trimming it changes nothing for `split_whitespace`.
abbrev pub before_comment : Text → Text
before_comment line = (split_by (λ c. nat_beq c b'#' || nat_beq c b';') line).0

module _ (parse : Text → Option IpAddr) where
  abbrev pub pushed : Option IpAddr → List IpAddr → List IpAddr
  pushed none servers = servers
  pushed (some ip) servers = ip ∷ servers

  -- The server that a line adds in front of those of the lines behind it.
  abbrev pub add_server : List Text → List IpAddr → List IpAddr
  add_server [] servers = servers
  add_server (keyword ∷ []) servers = servers
  add_server (keyword ∷ field ∷ fields) servers =
      if text_beq keyword (text "nameserver") then pushed (parse field) servers else servers

  unfoldable pub parse_lines : List Text → List IpAddr
  parse_lines [] = []
  parse_lines (line ∷ rest) = add_server (split_whitespace (before_comment line)) (parse_lines rest)

  unfoldable pub parse_resolv_conf : Text → List IpAddr
  unfolding parse_lines
  parse_resolv_conf t = parse_lines (lines t)

  -- A file that cannot be read has no servers.
  unfoldable pub read_dns_servers : Option Text → List IpAddr
  unfolding parse_resolv_conf
  read_dns_servers none = []
  read_dns_servers (some t) = parse_resolv_conf t
