-- ===== src/Firewall/Packet.antt =====
-- `parse_packet` of crates/daemon/src/firewall.rs, over a packet as a list of bytes. An index or a
-- slice out of bounds panics, apart from the rejections by `None`.
pub mod Total
pub mod Headers
use travelmode.Base.{
  ℕ, ◌+◌, ◌-◌, ◌*◌, ◌/◌, ◌%◌, Bool, true, false, ◌||◌, List, [], ◌∷◌, Option, none, some, length,
  get_elem?, take, drop, ltb, leb, nat_beq, if◌then◌else◌, u16_from_be,
}
use travelmode.Types.{Protocol, tcp, udp, IpAddr, v4, v6}

pub data Parsed {ℓ} (A : Type ℓ) : Type ℓ where
  panicked : Parsed A
  rejected : Parsed A
  accepted : A → Parsed A

infixl 5 ◌>>=◌ ◌>>◌
abbrev pub ◌>>=◌ {ℓ κ} : {A : Type ℓ} {B : Type κ} → Parsed A → (A → Parsed B) → Parsed B
panicked >>= f = panicked
rejected >>= f = rejected
accepted a >>= f = f a

abbrev pub ◌>>◌ {ℓ} : {B : Type ℓ} → Parsed (Unit {0}) → Parsed B → Parsed B
m >> k = m >>= λ _. k

abbrev pub reject_if : Bool → Parsed (Unit {0})
reject_if true = rejected
reject_if false = accepted tt

-- `payload.first()?`
unfoldable pub first_byte : List ℕ → Parsed ℕ
first_byte [] = rejected
first_byte (b ∷ bs) = accepted b

-- `payload[i]`
unfoldable pub index : List ℕ → ℕ → Parsed ℕ
index payload i = elim (get_elem? payload i) [ none ↦ panicked | some b ↦ accepted b ]

-- `payload[a..b]`
unfoldable pub slice : List ℕ → ℕ → ℕ → Parsed (List ℕ)
slice payload a b =
    if leb b (length payload) then accepted (take (b - a) (drop a payload)) else panicked

unfoldable pub index_v4 : List ℕ → ℕ → Parsed IpAddr
index_v4 payload i = do
  a ← index payload i
  b ← index payload (i + 1)
  c ← index payload (i + 2)
  d ← index payload (i + 3)
  accepted (v4 a b c d)

-- The match on the version: the protocol byte, where the ports stand, source and destination.
unfoldable pub header_v4 : List ℕ → Parsed (ℕ × ℕ × IpAddr × IpAddr)
unfolding first_byte index index_v4
header_v4 payload = do
  b ← first_byte payload
  let ihl = b % 16 * 4
  reject_if (ltb (length payload) (ihl + 4) || ltb ihl 20)
  proto ← index payload 9
  src ← index_v4 payload 12
  dst ← index_v4 payload 16
  accepted (proto, ihl, src, dst)

unfoldable pub header_v6 : List ℕ → Parsed (ℕ × ℕ × IpAddr × IpAddr)
unfolding index slice
header_v6 payload = do
  reject_if (ltb (length payload) (40 + 4))
  proto ← index payload 6
  src ← slice payload 8 24
  dst ← slice payload 24 40
  accepted (proto, 40, v6 src, v6 dst)

unfoldable pub header : ℕ → List ℕ → Parsed (ℕ × ℕ × IpAddr × IpAddr)
header version payload =
    if nat_beq version 4
    then header_v4 payload
    else if nat_beq version 6
    then header_v6 payload
    else rejected

unfoldable pub protocol_of : ℕ → Parsed Protocol
protocol_of b =
    if nat_beq b 6 then accepted tcp else if nat_beq b 17 then accepted udp else rejected

-- What follows the match: the protocol, the second length check and the ports.
unfoldable pub ports : List ℕ → ℕ × ℕ × IpAddr × IpAddr → Parsed (Protocol × ℕ × IpAddr × ℕ)
unfolding protocol_of index
ports payload (proto_byte, l4_offset, src, dst) = do
  proto ← protocol_of proto_byte
  reject_if (ltb (length payload) (l4_offset + 4))
  a ← index payload l4_offset
  b ← index payload (l4_offset + 1)
  c ← index payload (l4_offset + 2)
  d ← index payload (l4_offset + 3)
  accepted (proto, u16_from_be a b, dst, u16_from_be c d)

unfoldable pub parse_packet : List ℕ → Parsed (Protocol × ℕ × IpAddr × ℕ)
unfolding header header_v4 header_v6 ports
parse_packet payload = do b ← first_byte payload; h ← header (b / 16) payload; ports payload h
