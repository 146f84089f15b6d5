-- ===== src/Tests/Flows.antt =====
-- Attribution, the connection table and flow termination at a concrete machine.
use travelmode.Base.Map
use travelmode.Base.Parsing
use travelmode.Base.Parsing.{is_whitespace, parse_uint, show_ℕ}
use travelmode.Base.Parsing.Words.{IsWord, IsSpread, no_words, last_word, space, word}
use travelmode.Base.{
  ℕ, ◌≡◌, refl, zero, suc, ◌++◌, true, false, [], ◌∷◌, List, none, some, text, Text, arith, All,
  any, is_some, path_beq, text_key, is_empty, ◌||◌,
}
use travelmode.Types.{ConnectionInfo, tcp, v4, block}
use travelmode.Attrib
use travelmode.Attrib.{lookup, find_socket_inode, pid_owns_inode}
use travelmode.Attrib.Ownership.{lookup-owns, lookup-finds}
use travelmode.Conntrack.{flow_key, parse_line}
use travelmode.Conntrack.Parse.{Direction, line_tokens, parse_line-line_tokens}
use travelmode.Conntrack.Poll.{SeenFlows, collect_seen}
use travelmode.Conntrack.Poll.Sync.{InSync, mirror}
use travelmode.FlowKill.{Tools}
use travelmode.State.{DaemonState}
use travelmode.Config
use travelmode.State
use travelmode.Tests.World.{flow_table, addresses, machine, machine-IsCanonical, curl, show, parse}
use travelmode.Tests.Codec.{plain}

program : Unit {0}
unfolding Parsing.lines Parsing.split_whitespace Parsing.ends_with Parsing.after_last
    Parsing.contains Parsing.strip_prefix Parsing.strip_last Parsing.split_once lookup
    find_socket_inode pid_owns_inode show_ℕ parse_uint show parse flow_key parse_line Map.get
    Map.insert mirror path_beq Attrib.new State.new
program = tt

lookup-owns_example :
    (inode : ℕ) × (find_socket_inode machine tcp 51234 ≡ some inode)
    × (pid_owns_inode machine 42 inode ≡ true)
unfolding program
lookup-owns_example = lookup-owns machine [] tcp 51234 42 machine-IsCanonical refl

lookup-finds_example : is_some (lookup machine [] tcp 51234).0 ≡ true
unfolding program
lookup-finds_example =
    lookup-finds machine [] tcp 51234 777 42 (text "self" ∷ text "42" ∷ []) refl refl (omega arith)
      refl refl

abbrev sending : Direction
sending = record {
  src = show (v4 192 168 1 10);
  dst = show (v4 93 184 216 34);
  sport = text "51234";
  dport = text "443";
  packets = text "3";
  bytes = 180;
}

abbrev receiving : Direction
receiving = record {
  src = show (v4 93 184 216 34);
  dst = show (v4 192 168 1 10);
  sport = text "443";
  dport = text "51234";
  packets = text "2";
  bytes = 900;
}

words : (ts : List Text) → any (λ t. is_empty t || any is_whitespace t) ts ≡ false → All IsWord ts
words [] h = tt
words (t ∷ ts) h = ((ground arith, ground arith), words ts (ground arith))

abbrev blanks : ℕ → Text → Text
blanks zero s = s
blanks (suc k) s = b' ' ∷ blanks k s

-- The words, each with one space behind it and so many more.
abbrev padded : List ℕ → List Text → Text
padded gaps [] = []
padded gaps (t ∷ []) = t
padded [] (t ∷ u ∷ ts) = t ++ (b' ' ∷ padded [] (u ∷ ts))
padded (k ∷ gaps) (t ∷ u ∷ ts) = t ++ (b' ' ∷ blanks k (padded gaps (u ∷ ts)))

blanks-IsSpread : (k : ℕ) (ts : List Text) (s : Text) → IsSpread ts s → IsSpread ts (blanks k s)
blanks-IsSpread zero ts s h = h
blanks-IsSpread (suc k) ts s h = space b' ' ts (blanks k s) refl (blanks-IsSpread k ts s h)

padded-IsSpread : (gaps : List ℕ) (ts : List Text) → All IsWord ts → IsSpread ts (padded gaps ts)
padded-IsSpread gaps [] h = no_words
padded-IsSpread gaps (t ∷ []) h = last_word t h.0
padded-IsSpread [] (t ∷ u ∷ ts) h =
    word t b' ' (u ∷ ts) (padded [] (u ∷ ts)) h.0 refl (padded-IsSpread [] (u ∷ ts) h.1)
padded-IsSpread (k ∷ gaps) (t ∷ u ∷ ts) h =
    word t b' ' (u ∷ ts) (blanks k (padded gaps (u ∷ ts))) h.0 refl
      (blanks-IsSpread k (u ∷ ts) (padded gaps (u ∷ ts)) (padded-IsSpread gaps (u ∷ ts) h.1))

-- A line as the kernel pads it.
abbrev line : Text
line =
    text "ipv4     2 tcp      6 117 ESTABLISHED src="
    ++ show (v4 192 168 1 10)
    ++ text " dst="
    ++ show (v4 93 184 216 34)
    ++ text " sport=51234 dport=443 packets=3 bytes=180 src="
    ++ show (v4 93 184 216 34)
    ++ text " dst="
    ++ show (v4 192 168 1 10)
    ++ text " sport=443 dport=51234 packets=2 bytes=900 [ASSURED] mark=0 use=2"

abbrev tokens : List Text
tokens =
    line_tokens (text "ipv4") (text "2") tcp (text "6") (text "117") (text "ESTABLISHED") sending []
      receiving (text "[ASSURED]" ∷ text "mark=0" ∷ text "use=2" ∷ [])

line-IsSpread : IsSpread tokens line
unfolding program
line-IsSpread = padded-IsSpread (4 ∷ 0 ∷ 5 ∷ []) tokens (words tokens refl)

parse_line-line_tokens_example :
    parse_line addresses line
    ≡ some (record {
      key = flow_key addresses tcp (v4 192 168 1 10) 51234 (v4 93 184 216 34) 443;
      proto = tcp;
      local = v4 192 168 1 10;
      local_port = 51234;
      remote = v4 93 184 216 34;
      remote_port = 443;
      sent = 180;
      recv = 900;
    })
unfolding program
parse_line-line_tokens_example =
    parse_line-line_tokens addresses tcp (text "ipv4") (text "2") (text "6") (text "117")
      (text "ESTABLISHED") sending receiving []
      (text "[ASSURED]" ∷ text "mark=0" ∷ text "use=2" ∷ []) (v4 192 168 1 10) (v4 93 184 216 34)
      51234 443 line (λ e. ground arith) refl tt line-IsSpread (omega arith) (omega arith)
      (omega arith) (omega arith) refl refl refl refl

abbrev pub idle : DaemonState
idle = State.new plain Config.default (record { target = none; tmp = none }) true 0

idle-InSync : InSync idle
unfolding program
idle-InSync = record { mirrored = λ k. refl; keyed = λ k c g. absurd (ground arith) }

abbrev seen : SeenFlows
seen = collect_seen addresses (Parsing.lines flow_table) []

abbrev pub flow : ConnectionInfo
flow = record {
  key = text "k";
  protocol = tcp;
  local_addr = v4 192 168 1 10;
  local_port = 51234;
  remote_addr = v4 93 184 216 34;
  remote_port = 443;
  bytes_sent = 180;
  bytes_recv = 900;
  pid = some 42;
  process_name = some (text "curl");
  exe = some curl;
  started = 1;
  last_seen = 2;
}

abbrev pub tracking : DaemonState
tracking = record idle { connections = (text "k", flow) ∷ [] }

abbrev pub tools : Tools
tools = record { conntrack_available = true; succeeds = λ c. true }

abbrev pub restarted : DaemonState
restarted = record tracking {
  rules = record tracking.rules {
    rules =
        record {
          id = 1;
          name = text "curl";
          exe_path = curl;
          action = block;
          persistent = true;
          expires_at = none;
          profile = text "default";
          updated_at = 0;
        }
        ∷ [];
  };
}
