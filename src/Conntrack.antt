-- ===== src/Conntrack.antt =====
-- The connection tracker: crates/daemon/src/conntrack.rs. `Display` and `FromStr` of addresses are
-- the standard library's; `AddrText` holds them.
pub mod Key
pub mod Parse
pub mod Poll
use travelmode.Base.Map
use travelmode.Base.Map.{Map}
use travelmode.Base.Parsing.{split_whitespace, split_once, contains, parse_uint, show_ℕ}
use travelmode.Base.{
  ℕ, ◌≡◌, Bool, true, false, not, ◌&&◌, List, [], ◌∷◌, ◌++◌, max, Option, none, some, Text, text,
  text_beq, text_key, nat_beq, u16_mod, u64_mod, is_some, if◌then◌else◌,
}
use travelmode.Types.{Protocol, tcp, udp, other, IpAddr}
use mathlib.Core.Option

infixl 5 ◌>>=◌
abbrev ◌>>=◌ {ℓ κ} : {A : Type ℓ} {B : Type κ} → Option A → (A → Option B) → Option B
none >>= f = none
some a >>= f = f a

pub record AddrText : Type 0 where
  pub show : IpAddr → Text
  pub parse : Text → Option IpAddr

pub record ParsedFlow : Type 0 where
  pub key : Text
  pub proto : Protocol
  pub local : IpAddr
  pub local_port : ℕ
  pub remote : IpAddr
  pub remote_port : ℕ
  pub sent : ℕ
  pub recv : ℕ

abbrev pub proto_name : Protocol → Text
proto_name tcp = text "tcp"
proto_name udp = text "udp"
proto_name other = []

unfoldable pub flow_key : AddrText → Protocol → IpAddr → ℕ → IpAddr → ℕ → Text
flow_key a proto local local_port remote remote_port =
    proto_name proto
    ++ (b':' ∷ a.show local
        ++ (b':' ∷ show_ℕ local_port ++ (b'-' ∷ a.show remote ++ (b':' ∷ show_ℕ remote_port))))

unfoldable pub parse_proto : Text → Option Protocol
parse_proto t =
    if text_beq t (text "tcp") then some tcp else if text_beq t (text "udp") then some udp else none

-- A TCP line carries a state token, which is no pair.
unfoldable pub skip_state : Protocol → List Text → List Text
skip_state tcp (t ∷ tokens) = if contains b'=' t then t ∷ tokens else tokens
skip_state _ tokens = tokens

-- The variables of the loop over the pairs.
pub record Pairs : Type 0 where
  pub orig : Map Text Text
  pub reply_bytes : Option ℕ
  pub orig_bytes : Option ℕ
  pub in_reply : Bool

unfoldable pub no_pairs : Pairs
no_pairs = record { orig = []; reply_bytes = none; orig_bytes = none; in_reply = false }

abbrev or_parse : Option ℕ → Text → Option ℕ
or_parse none v = parse_uint 10 u64_mod v
or_parse (some n) v = some n

-- `entry(k).or_insert(v)`
abbrev or_insert : Text → Text → Map Text Text → Map Text Text
or_insert k v m = Map.update_or k v (λ w. w) m

unfoldable pub enter_reply : Pairs → Text → Bool
enter_reply s k =
    if text_beq k (text "src") && Map.contains_key (text "src") s.orig then true else s.in_reply

unfoldable pub take_pair : Pairs → Text → Text → Pairs
unfolding enter_reply
take_pair s k v =
    let in_reply : Bool = enter_reply s k in
    if in_reply
    then (if text_beq k (text "bytes")
        then record s { in_reply = in_reply; reply_bytes = or_parse s.reply_bytes v }
        else record s { in_reply = in_reply })
    else if text_beq k (text "bytes")
    then record s { in_reply = in_reply; orig_bytes = or_parse s.orig_bytes v }
    else record s { in_reply = in_reply; orig = or_insert k v s.orig }

unfoldable pub take_pairs : Pairs → List Text → Pairs
unfolding take_pair
take_pairs s [] = s
take_pairs s (tok ∷ tokens) =
    take_pairs (elim (split_once b'=' tok) [ none ↦ s | some (k, v) ↦ take_pair s k v ]) tokens

unfoldable pub finish : AddrText → Protocol → Pairs → Option ParsedFlow
unfolding flow_key
finish a proto s = do
  src ← Map.get (text "src") s.orig
  local ← a.parse src
  dst ← Map.get (text "dst") s.orig
  remote ← a.parse dst
  sport ← Map.get (text "sport") s.orig
  local_port ← parse_uint 10 u16_mod sport
  dport ← Map.get (text "dport") s.orig
  remote_port ← parse_uint 10 u16_mod dport
  some (record {
    key = flow_key a proto local local_port remote remote_port;
    proto = proto;
    local = local;
    local_port = local_port;
    remote = remote;
    remote_port = remote_port;
    sent = Option.get_or s.orig_bytes 0;
    recv = Option.get_or s.reply_bytes 0;
  })

unfoldable pub parse_tokens : AddrText → List Text → Option ParsedFlow
unfolding parse_proto skip_state take_pairs finish no_pairs
parse_tokens a (l3 ∷ l3num ∷ name ∷ l4num ∷ timeout ∷ tokens) = do
  proto ← parse_proto name
  finish a proto (take_pairs no_pairs (skip_state proto tokens))
parse_tokens a _ = none

unfoldable pub parse_line : AddrText → Text → Option ParsedFlow
unfolding parse_tokens
parse_line a line = parse_tokens a (split_whitespace line)
