-- ===== src/Conntrack/Parse.antt =====
-- What `parse_line` of crates/daemon/src/conntrack.rs reads from the lines that the kernel writes.
use travelmode.Base.Map
use travelmode.Base.Parsing.{split_once, contains, show_ℕ}
use travelmode.Base.Parsing.Decimal.{parse-show_ℕ}
use travelmode.Base.Parsing.Words.{IsSpread, split_whitespace-IsSpread}
use travelmode.Base.{
  ℕ, ◌<◌, ◌≡◌, ◌≢◌, refl, ap, ◌∙◌, true, false, List, [], ◌∷◌, ◌++◌, none, some, Text, text, arith,
  All, text_key, u16_mod, u64_mod, Option-cases, inl, inr,
}
use travelmode.Types.{Protocol, tcp, udp, other, IpAddr}
use travelmode.Conntrack.{
  AddrText, Pairs, no_pairs, proto_name, take_pair, take_pairs, finish, flow_key, parse_tokens,
  parse_line,
}

abbrev pub pair : Text → Text → Text
pair k v = k ++ (b'=' ∷ v)

-- One direction of a flow, as the kernel writes it.
pub record Direction : Type 0 where
  pub src : Text
  pub dst : Text
  pub sport : Text
  pub dport : Text
  pub packets : Text
  pub bytes : ℕ

abbrev pub direction_tokens : Direction → List Text
direction_tokens d =
    pair (text "src") d.src
    ∷ pair (text "dst") d.dst
    ∷ pair (text "sport") d.sport
    ∷ pair (text "dport") d.dport
    ∷ pair (text "packets") d.packets
    ∷ pair (text "bytes") (show_ℕ d.bytes)
    ∷ []

-- Tokens such as `[UNREPLIED]`.
abbrev pub AreMarks : List Text → Type 0
AreMarks = All (λ t. split_once b'=' t ≡ none)

after_orig : Direction → Pairs
after_orig d = record {
  orig =
      (text "src", d.src)
      ∷ (text "dst", d.dst)
      ∷ (text "sport", d.sport)
      ∷ (text "dport", d.dport)
      ∷ (text "packets", d.packets)
      ∷ [];
  reply_bytes = none;
  orig_bytes = some d.bytes;
  in_reply = false;
}

take_pairs-orig :
    (d : Direction) (rest : List Text)
    → d.bytes < u64_mod
    → take_pairs no_pairs (direction_tokens d ++ rest) ≡ take_pairs (after_orig d) rest
unfolding take_pairs after_orig no_pairs Map.get Map.contains_key Map.update_or split_once
take_pairs-orig d rest h = rw (parse-show_ℕ d.bytes u64_mod h)

take_pairs-marks :
    (s : Pairs) (marks rest : List Text)
    → AreMarks marks
    → take_pairs s (marks ++ rest) ≡ take_pairs s rest
unfolding take_pairs
take_pairs-marks s [] rest h = refl
take_pairs-marks s (t ∷ marks) rest h = rw (h.0, take_pairs) (take_pairs-marks s marks rest h.1)

abbrev after_reply : Direction → Direction → Pairs
after_reply d r = record {
  orig = (after_orig d).orig;
  reply_bytes = some r.bytes;
  orig_bytes = some d.bytes;
  in_reply = true;
}

take_pairs-reply :
    (d r : Direction) (rest : List Text)
    → r.bytes < u64_mod
    → take_pairs (after_orig d) (direction_tokens r ++ rest) ≡ take_pairs (after_reply d r) rest
unfolding take_pairs after_orig Map.get Map.contains_key Map.update_or split_once
take_pairs-reply d r rest h = rw (parse-show_ℕ r.bytes u64_mod h)

take_pair-done : (d r : Direction) (k v : Text) → take_pair (after_reply d r) k v ≡ after_reply d r
unfolding take_pair after_orig
take_pair-done d r k v = ground arith

-- Nothing that follows the reply's byte counter changes anything.
take_pairs-done :
    (d r : Direction) (rest : List Text) → take_pairs (after_reply d r) rest ≡ after_reply d r
unfolding take_pairs
take_pairs-done d r [] = refl
take_pairs-done d r (t ∷ rest) = elim (Option-cases (split_once b'=' t)) [
  | inl e ↦ rw (e, take_pairs) (take_pairs-done d r rest)
  | inr ((k, v), e) ↦ rw (e, take_pairs, take_pair-done d r k v) (take_pairs-done d r rest)
]

-- TCP lines have the state of the connection in front of the pairs.
abbrev pub state_tokens : Protocol → Text → List Text
state_tokens tcp st = st ∷ []
state_tokens udp st = []
state_tokens other st = []

abbrev pub line_tokens :
    Text
    → Text
    → Protocol
    → Text
    → Text
    → Text
    → Direction
    → List Text
    → Direction
    → List Text
    → List Text
line_tokens l3 l3num p l4num timeout st d marks r rest =
    l3 ∷ l3num ∷ proto_name p ∷ l4num ∷ timeout ∷ state_tokens p st
    ++ (direction_tokens d ++ (marks ++ (direction_tokens r ++ rest)))

take_pairs-line :
    (d r : Direction) (marks rest : List Text)
    → d.bytes < u64_mod
    → r.bytes < u64_mod
    → AreMarks marks
    → take_pairs no_pairs (direction_tokens d ++ (marks ++ (direction_tokens r ++ rest)))
      ≡ after_reply d r
take_pairs-line d r marks rest h k m =
    take_pairs-orig d (marks ++ (direction_tokens r ++ rest)) h
    ∙ take_pairs-marks (after_orig d) marks (direction_tokens r ++ rest) m
    ∙ take_pairs-reply d r rest k
    ∙ take_pairs-done d r rest

finish-reply :
    (a : AddrText) (p : Protocol) (d r : Direction) (local remote : IpAddr) (lport rport : ℕ)
    → lport < u16_mod
    → rport < u16_mod
    → a.parse d.src ≡ some local
    → a.parse d.dst ≡ some remote
    → d.sport ≡ show_ℕ lport
    → d.dport ≡ show_ℕ rport
    → finish a p (after_reply d r)
      ≡ some (record {
        key = flow_key a p local lport remote rport;
        proto = p;
        local = local;
        local_port = lport;
        remote = remote;
        remote_port = rport;
        sent = d.bytes;
        recv = r.bytes;
      })
unfolding finish after_orig Map.get
finish-reply a p d r local remote lport rport h k s t u v =
    ground (arith, parse-show_ℕ lport u16_mod h, parse-show_ℕ rport u16_mod k)

parse_tokens-line :
    (a : AddrText) (p : Protocol) (l3 l3num l4num timeout st : Text) (d r : Direction)
    (marks rest : List Text)
    → p ≢ other
    → contains b'=' st ≡ false
    → AreMarks marks
    → d.bytes < u64_mod
    → r.bytes < u64_mod
    → parse_tokens a (line_tokens l3 l3num p l4num timeout st d marks r rest)
      ≡ finish a p (after_reply d r)
unfolding parse_tokens
parse_tokens-line a tcp l3 l3num l4num timeout st d r marks rest n c m h k =
    rw c (ap (finish a tcp) (take_pairs-line d r marks rest h k m))
parse_tokens-line a udp l3 l3num l4num timeout st d r marks rest n c m h k =
    ap (finish a udp) (take_pairs-line d r marks rest h k m)
parse_tokens-line a other l3 l3num l4num timeout st d r marks rest n c m h k = absurd (n refl)

-- From a TCP or UDP line with both directions and their counters, with any marks between them and
-- anything behind them, its tokens set apart by any amount of whitespace, the parser reads the original direction's addresses and ports, its bytes as
-- sent and the reply's bytes as received.
pub parse_line-line_tokens :
    (a : AddrText) (p : Protocol) (l3 l3num l4num timeout st : Text) (d r : Direction)
    (marks rest : List Text) (local remote : IpAddr) (lport rport : ℕ) (line : Text)
    → p ≢ other
    → contains b'=' st ≡ false
    → AreMarks marks
    → IsSpread (line_tokens l3 l3num p l4num timeout st d marks r rest) line
    → d.bytes < u64_mod
    → r.bytes < u64_mod
    → lport < u16_mod
    → rport < u16_mod
    → a.parse d.src ≡ some local
    → a.parse d.dst ≡ some remote
    → d.sport ≡ show_ℕ lport
    → d.dport ≡ show_ℕ rport
    → parse_line a line
      ≡ some (record {
        key = flow_key a p local lport remote rport;
        proto = p;
        local = local;
        local_port = lport;
        remote = remote;
        remote_port = rport;
        sent = d.bytes;
        recv = r.bytes;
      })
unfolding parse_line
parse_line-line_tokens a p l3 l3num l4num timeout st d r marks rest local remote lport rport line n
      c m w h k i j s t u v =
    ap (parse_tokens a)
      (split_whitespace-IsSpread (line_tokens l3 l3num p l4num timeout st d marks r rest) line w)
    ∙ parse_tokens-line a p l3 l3num l4num timeout st d r marks rest n c m h k
    ∙ finish-reply a p d r local remote lport rport i j s t u v
