-- ===== src/Tests/Firewall.antt =====
-- The packet parser and the log throttle at concrete inputs, after the tests of
-- crates/daemon/src/firewall.rs.
use travelmode.Base.{
  ℕ, ◌+◌, ◌*◌, ◌≤◌, ◌≡◌, ◌≢◌, refl, List, [], ◌∷◌, ◌++◌, arith, text, path_beq, u16_from_be,
}
use travelmode.Base.Map
use travelmode.Types.{tcp, v4}
use travelmode.Firewall.Packet.{panicked, rejected, accepted, parse_packet}
use travelmode.Firewall.Packet.Total.{parse_packet_total}
use travelmode.Firewall.Packet.Headers.{number, ipv4_head, parse_packet-ipv4}
use travelmode.Firewall.Throttle.{first, suppress, summary, ThrottleKey, new, run, should_log}
use travelmode.Firewall.Throttle.Rate.{lines_for, run-new-rate}

parse_packet_total_example : parse_packet (0x45 ∷ []) ≢ panicked
parse_packet_total_example = parse_packet_total (0x45 ∷ [])

short_and_strange :
    (parse_packet [] ≡ rejected)
    × (parse_packet (0x45 ∷ []) ≡ rejected)
    × (parse_packet (0x99 ∷ 0x99 ∷ []) ≡ rejected)
unfolding parse_packet
short_and_strange = (refl, refl, refl)

-- A header with one word of options.
parse_packet-ipv4_example :
    parse_packet (
      ipv4_head 0x46
        (0, 0, 44, 0, 0, 0, 0, 64)
        (number tcp)
        (0, 0)
        (192, 168, 1, 10)
        (93, 184, 216, 34)
        (1 ∷ 1 ∷ 1 ∷ 0 ∷ [])
      ++ 200 ∷ 34 ∷ 1 ∷ 187 ∷ 0 ∷ [])
    ≡ accepted (tcp, u16_from_be 200 34, v4 93 184 216 34, u16_from_be 1 187)
parse_packet-ipv4_example =
    parse_packet-ipv4 0x46 (0, 0, 44, 0, 0, 0, 0, 64) tcp (0, 0) (192, 168, 1, 10) 93 184 216 34
      (1 ∷ 1 ∷ 1 ∷ 0 ∷ []) 200 34 1 187 (0 ∷ []) refl refl (ground arith)

abbrev link_local : List ℕ
link_local = 254 ∷ 128 ∷ 0 ∷ 0 ∷ 0 ∷ 0 ∷ 0 ∷ 0 ∷ 0 ∷ 0 ∷ 0 ∷ 0 ∷ 0 ∷ 0 ∷ 0 ∷ 1 ∷ []

abbrev curl_key : ThrottleKey
curl_key = (record { display = text "/usr/bin/curl" }, text "93.184.216.34:443")

abbrev wget_key : ThrottleKey
wget_key = (record { display = text "/usr/bin/wget" }, text "1.1.1.1:443")

-- Window 5: the transitions of the source's own test.
abbrev packets : List (ThrottleKey × ℕ)
packets =
    (curl_key, 0)
    ∷ (curl_key, 1)
    ∷ (curl_key, 2)
    ∷ (wget_key, 3)
    ∷ (curl_key, 6)
    ∷ (curl_key, 7)
    ∷ (curl_key, 13)
    ∷ (curl_key, 18)
    ∷ []

transitions :
    (run (new 5) packets).0
    ≡ (curl_key, first)
      ∷ (curl_key, suppress)
      ∷ (curl_key, suppress)
      ∷ (wget_key, first)
      ∷ (curl_key, summary 3)
      ∷ (curl_key, suppress)
      ∷ (curl_key, summary 2)
      ∷ (curl_key, summary 1)
      ∷ []
unfolding run new should_log path_beq Map.get Map.insert
transitions = refl

run-new-rate_example : lines_for curl_key (run (new 5) packets).0 * 5 ≤ 18 + 5
run-new-rate_example = run-new-rate 5 18 curl_key packets (omega arith) (omega arith)
