-- ===== src/Tests/World.antt =====
-- A machine for the tests: process 42 runs curl and holds the socket of local port 51234. Addresses
-- are written in a compact code, which stands for their usual form.
use mathlib.Core.Path.{subst}
use travelmode.Base.{
  ℕ, ◌+◌, ◌-◌, ◌≡◌, refl, true, false, List, [], ◌∷◌, ◌++◌, Option, none, some, Text, text,
  FilePath, text_beq, nat_beq, if◌then◌else◌, arith,
}
use travelmode.Base.Parsing.{show_ℕ, parse_uint}
use travelmode.Types.{IpAddr, v4, v6}
use travelmode.World.{World, Process}
use travelmode.Attrib.Ownership.{IsCanonical, CanonicalNames}
use travelmode.Conntrack.{AddrText}
use travelmode.Conntrack.Key.{IsFaithful, Lacks}

codes : List ℕ → Text
codes [] = []
codes (b ∷ bs) = (b + 100) ∷ codes bs

uncodes : Text → List ℕ
uncodes [] = []
uncodes (c ∷ cs) = (c - 100) ∷ uncodes cs

unfoldable pub show : IpAddr → Text
unfolding codes
show (v4 a b c d) = b'4' ∷ (a + 100) ∷ (b + 100) ∷ (c + 100) ∷ (d + 100) ∷ []
show (v6 bs) = b'6' ∷ codes bs

unfoldable pub parse : Text → Option IpAddr
unfolding uncodes
parse (k ∷ cs) = if nat_beq k b'6' then some (v6 (uncodes cs)) else (elim cs [
  | [] ↦ none
  | a ∷ bs ↦ elim bs [
    | [] ↦ none
    | b ∷ ds ↦ elim ds [
      | [] ↦ none
      | c ∷ es ↦ elim es [ [] ↦ none | d ∷ _ ↦ some (v4 (a - 100) (b - 100) (c - 100) (d - 100)) ]
    ]
  ]
])
parse [] = none

abbrev pub addresses : AddrText
addresses = record { show = show; parse = parse }

codes-Lacks : (bs : List ℕ) → Lacks b'-' (codes bs)
unfolding codes
codes-Lacks [] = tt
codes-Lacks (b ∷ bs) = (λ e. omega arith, codes-Lacks bs)

codes_inj : (bs cs : List ℕ) → codes bs ≡ codes cs → bs ≡ cs
unfolding codes
codes_inj [] [] e = refl
codes_inj [] (c ∷ cs) e = absurd (ground arith)
codes_inj (b ∷ bs) [] e = absurd (ground arith)
codes_inj (b ∷ bs) (c ∷ cs) e = ground (arith, codes_inj bs cs)

show_no_dash : (ip : IpAddr) → Lacks b'-' (show ip)
unfolding show
show_no_dash (v4 a b c d) = (
  λ e. omega arith,
  (λ e. omega arith, (λ e. omega arith, (λ e. omega arith, (λ e. omega arith, tt)))),
)
show_no_dash (v6 bs) = (λ e. omega arith, codes-Lacks bs)

show_inj : (x y : IpAddr) → show x ≡ show y → x ≡ y
unfolding show
show_inj (v4 a b c d) (v4 a' b' c' d') e = ground arith
show_inj (v4 a b c d) (v6 bs) e = absurd (ground arith)
show_inj (v6 bs) (v4 a b c d) e = absurd (ground arith)
show_inj (v6 bs) (v6 cs) e = ground (arith, codes_inj bs cs)

pub addresses-IsFaithful : IsFaithful addresses
addresses-IsFaithful = record { no_dash = show_no_dash; show_inj = show_inj }

abbrev pub curl : FilePath
curl = record { display = text "/usr/bin/curl" }

abbrev process : Process
process = record {
  fd = some (some false ∷ some true ∷ none ∷ []);
  stat = some (record { pid = 42; comm = text "curl"; ppid = 1 });
  uid = some 1000;
  exe = some curl;
}

abbrev tcp_table : Text
tcp_table =
    text
      "  sl  local_address rem_address   st tx_queue rx_queue tr tm->when retrnsmt   uid  timeout inode\n"
    ++ text
        "   0: 0A01A8C0:C822 22D8B85D:01BB 02 00000000:00000000 00:00000000 00000000  1000        0 777 1\n"

abbrev pub flow_table : Text
flow_table =
    text "ipv4 2 tcp 6 117 SYN_SENT src="
    ++ show (v4 192 168 1 10)
    ++ text " dst="
    ++ show (v4 93 184 216 34)
    ++ text " sport=51234 dport=443 packets=3 bytes=180 [UNREPLIED]\n"

abbrev pub machine : World
machine = record {
  read_file = λ file.
      if text_beq file (text "/proc/net/tcp")
      then some tcp_table
      else if text_beq file (text "/proc/net/nf_conntrack")
      then some flow_table
      else none;
  proc_names = some (text "self" ∷ text "42" ∷ []);
  fd_targets = λ name.
      if text_beq name (text "42")
      then some (some (text "/dev/null") ∷ some (text "socket:[777]") ∷ none ∷ [])
      else none;
  all_processes = some (some process ∷ none ∷ []);
  process = λ pid. if nat_beq pid 42 then some process else none;
}

machine_names : CanonicalNames (text "self" ∷ text "42" ∷ [])
unfolding parse_uint show_ℕ
machine_names = (
  λ pid e. absurd (ground arith),
  (λ pid e. let q : 42 ≡ pid = ground arith in subst (λ n. text "42" ≡ show_ℕ n) q refl, tt),
)

pub machine-IsCanonical : IsCanonical machine
machine-IsCanonical names e =
    let q : (text "self" ∷ text "42" ∷ []) ≡ names = ground arith in
    subst CanonicalNames q machine_names
