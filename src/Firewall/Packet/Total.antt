-- ===== src/Firewall/Packet/Total.antt =====
-- `parse_packet` of crates/daemon/src/firewall.rs never reads out of bounds.
use travelmode.Base.{
  ℕ, zero, suc, ◌+◌, ◌/◌, ◌<◌, ◌≤◌, ◌≡◌, ◌≢◌, refl, Bool, true, false, List, [], ◌∷◌, length, arith,
}
use travelmode.Types.{IpAddr}
use travelmode.Firewall.Packet.{
  Parsed, panicked, rejected, accepted, ◌>>=◌, index, slice, index_v4, header_v4, header_v6, header,
  ports, parse_packet,
}

abbrev is_panic {ℓ} : {A : Type ℓ} → Parsed A → Bool
is_panic panicked = true
is_panic rejected = false
is_panic (accepted a) = false

index-lt : (payload : List ℕ) (i : ℕ) → i < length payload → is_panic (index payload i) ≡ false
unfolding index
index-lt [] i h = absurd (omega arith)
index-lt (b ∷ bs) zero h = refl
index-lt (b ∷ bs) (suc i) h = index-lt bs i (omega arith)

slice-le : (payload : List ℕ) (a b : ℕ) → b ≤ length payload → is_panic (slice payload a b) ≡ false
unfolding slice
slice-le payload a b h = ground arith

index_v4-lt :
    (payload : List ℕ) (i : ℕ) → i + 3 < length payload → is_panic (index_v4 payload i) ≡ false
unfolding index_v4
index_v4-lt payload i h = ground (
  arith,
  index-lt payload i,
  index-lt payload (i + 1),
  index-lt payload (i + 2),
  index-lt payload (i + 3),
)

header_v4_total : (payload : List ℕ) → is_panic (header_v4 payload) ≡ false
unfolding header_v4
header_v4_total [] = ground arith
header_v4_total (b ∷ bs) =
    ground (arith, index-lt (b ∷ bs) 9, index_v4-lt (b ∷ bs) 12, index_v4-lt (b ∷ bs) 16)

header_v6_total : (payload : List ℕ) → is_panic (header_v6 payload) ≡ false
unfolding header_v6
header_v6_total payload =
    ground (arith, index-lt payload 6, slice-le payload 8 24, slice-le payload 24 40)

header_total : (version : ℕ) (payload : List ℕ) → is_panic (header version payload) ≡ false
unfolding header
header_total version payload = ground (arith, header_v4_total payload, header_v6_total payload)

ports_total : (payload : List ℕ) (h : ℕ × ℕ × IpAddr × IpAddr) → is_panic (ports payload h) ≡ false
unfolding ports
ports_total payload (proto_byte, off, src, dst) = ground (
  arith,
  index-lt payload off,
  index-lt payload (off + 1),
  index-lt payload (off + 2),
  index-lt payload (off + 3),
)

ports_total_of :
    (r : Parsed (ℕ × ℕ × IpAddr × IpAddr)) (payload : List ℕ)
    → is_panic r ≡ false
    → is_panic (r >>= ports payload) ≡ false
ports_total_of panicked payload h = cc
ports_total_of rejected payload h = refl
ports_total_of (accepted h) payload _ = ports_total payload h

-- Every packet, however short or malformed, is rejected or parsed: no byte is read beyond its end.
pub parse_packet_total : (payload : List ℕ) → parse_packet payload ≢ panicked
unfolding parse_packet
parse_packet_total [] e = ground arith
parse_packet_total (b ∷ bs) e =
    ground
      (arith, header_total (b / 16) (b ∷ bs), ports_total_of (header (b / 16) (b ∷ bs)) (b ∷ bs))
