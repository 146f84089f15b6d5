-- ===== src/Firewall/Packet/Headers.antt =====
-- What `parse_packet` of crates/daemon/src/firewall.rs reads from well-formed IPv4 and IPv6
-- headers, by the layouts of the two protocols.
use travelmode.Base.{
  ℕ, zero, suc, ◌+◌, ◌*◌, ◌/◌, ◌%◌, ◌≡◌, ◌≢◌, refl, ap, List, [], ◌∷◌, ◌++◌, length, length-append,
  get_elem?, take, drop, take-append, drop-append, arith, u16_from_be,
}
use mathlib.Core.List.{append_assoc}
use travelmode.Types.{Protocol, tcp, udp, other, IpAddr, v4, v6}
use travelmode.Firewall.Packet.{accepted, ports, parse_packet, protocol_of}

-- The protocol numbers of TCP and UDP.
abbrev pub number : Protocol → ℕ
number tcp = 6
number udp = 17
number other = 0

get_elem?-append :
    (xs ys : List ℕ) (n k : ℕ) → n ≡ length xs + k → get_elem? (xs ++ ys) n ≡ get_elem? ys k
get_elem?-append [] ys n k h = ap (get_elem? ys) (omega arith)
get_elem?-append (x ∷ xs) ys zero k h = absurd (omega arith)
get_elem?-append (x ∷ xs) ys (suc n) k h = get_elem?-append xs ys n k (omega arith)

protocol_of-number : (p : Protocol) → p ≢ other → protocol_of (number p) ≡ accepted p
unfolding protocol_of
protocol_of-number tcp h = refl
protocol_of-number udp h = refl
protocol_of-number other h = absurd (h refl)

-- Ports behind a header of the given length.
ports_lem :
    (head : List ℕ) (p : Protocol) (src dst : IpAddr) (a b c d : ℕ) (rest : List ℕ) (n : ℕ)
    → n ≡ length head
    → p ≢ other
    → ports (head ++ a ∷ b ∷ c ∷ d ∷ rest) (number p, n, src, dst)
      ≡ accepted (p, u16_from_be a b, dst, u16_from_be c d)
unfolding ports
ports_lem head p src dst a b c d rest n h k = ground (
  arith,
  protocol_of-number p k,
  length-append head (a ∷ b ∷ c ∷ d ∷ rest),
  get_elem?-append head (a ∷ b ∷ c ∷ d ∷ rest) n 0,
  get_elem?-append head (a ∷ b ∷ c ∷ d ∷ rest) (n + 1) 1,
  get_elem?-append head (a ∷ b ∷ c ∷ d ∷ rest) (n + 2) 2,
  get_elem?-append head (a ∷ b ∷ c ∷ d ∷ rest) (n + 3) 3,
)

-- An IPv4 header up to its options; the first byte is the version and the length in words.
abbrev pub ipv4_head :
    ℕ → ℕ × ℕ × ℕ × ℕ × ℕ × ℕ × ℕ × ℕ → ℕ → ℕ × ℕ → ℕ × ℕ × ℕ × ℕ → ℕ × ℕ × ℕ × ℕ → List ℕ → List ℕ
ipv4_head v (b1, b2, b3, b4, b5, b6, b7, b8) proto (c0, c1) (s0, s1, s2, s3) (d0, d1, d2, d3)
      options =
    v ∷ b1 ∷ b2 ∷ b3 ∷ b4 ∷ b5 ∷ b6 ∷ b7 ∷ b8 ∷ proto ∷ c0 ∷ c1 ∷ s0 ∷ s1 ∷ s2 ∷ s3 ∷ d0 ∷ d1 ∷ d2
    ∷ d3 ∷ options

-- From an IPv4 packet with TCP or UDP and any options, the parser takes the protocol, the source
-- port as the local one, the destination address and the destination port.
pub parse_packet-ipv4 :
    (v : ℕ) (fields : ℕ × ℕ × ℕ × ℕ × ℕ × ℕ × ℕ × ℕ) (p : Protocol) (sum : ℕ × ℕ)
    (src : ℕ × ℕ × ℕ × ℕ) (d0 d1 d2 d3 : ℕ) (options : List ℕ) (a b c d : ℕ) (rest : List ℕ)
    → v / 16 ≡ 4
    → length options + 20 ≡ v % 16 * 4
    → p ≢ other
    → parse_packet
        (ipv4_head v fields (number p) sum src (d0, d1, d2, d3) options ++ a ∷ b ∷ c ∷ d ∷ rest)
      ≡ accepted (p, u16_from_be a b, v4 d0 d1 d2 d3, u16_from_be c d)
unfolding parse_packet
parse_packet-ipv4 v (b1, b2, b3, b4, b5, b6, b7, b8) p (c0, c1) (s0, s1, s2, s3) d0 d1 d2 d3 options
      a b c d rest h k n =
    ground (
      arith,
      length-append options (a ∷ b ∷ c ∷ d ∷ rest),
      ports_lem
          (ipv4_head v (b1, b2, b3, b4, b5, b6, b7, b8) (number p) (c0, c1) (s0, s1, s2, s3)
            (d0, d1, d2, d3) options)
          p (v4 s0 s1 s2 s3) (v4 d0 d1 d2 d3) a b c d rest (v % 16 * 4),
    )

drop_past : (xs ys : List ℕ) (n : ℕ) → length xs ≡ n → drop n (xs ++ ys) ≡ ys
drop_past xs ys n h = rw (← h) (drop-append xs ys)

take_past : (xs ys : List ℕ) (n : ℕ) → length xs ≡ n → take n (xs ++ ys) ≡ xs
take_past xs ys n h = rw (← h) (take-append xs ys)

-- From an IPv6 packet with TCP or UDP straight behind the fixed header, likewise.
pub parse_packet-ipv6 :
    (v : ℕ) (b1 b2 b3 b4 b5 hops : ℕ) (p : Protocol) (src dst : List ℕ) (a b c d : ℕ)
    (rest : List ℕ)
    → v / 16 ≡ 6
    → length src ≡ 16
    → length dst ≡ 16
    → p ≢ other
    → parse_packet
        ((v ∷ b1 ∷ b2 ∷ b3 ∷ b4 ∷ b5 ∷ number p ∷ hops ∷ src ++ dst) ++ a ∷ b ∷ c ∷ d ∷ rest)
      ≡ accepted (p, u16_from_be a b, v6 dst, u16_from_be c d)
unfolding parse_packet
parse_packet-ipv6 v b1 b2 b3 b4 b5 hops p src dst a b c d rest h s t n = ground (
  arith,
  length-append (src ++ dst) (a ∷ b ∷ c ∷ d ∷ rest),
  length-append src dst,
  append_assoc src dst (a ∷ b ∷ c ∷ d ∷ rest),
  drop_past src (dst ++ a ∷ b ∷ c ∷ d ∷ rest) 16 s,
  take_past dst (a ∷ b ∷ c ∷ d ∷ rest) 16 t,
  ports_lem (v ∷ b1 ∷ b2 ∷ b3 ∷ b4 ∷ b5 ∷ number p ∷ hops ∷ src ++ dst) p
      (v6 (take 16 ((src ++ dst) ++ a ∷ b ∷ c ∷ d ∷ rest))) (v6 dst) a b c d rest 40,
)
