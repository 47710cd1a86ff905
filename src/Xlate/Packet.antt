-- ===== src/Xlate/Packet.antt =====
-- internal/xlate/packet.go: the parsed view of a packet, and the constants of translator.go.
pub mod Parse4
pub mod Parse6
pub mod Headers
pub mod Frames4
pub mod Frames6
use clatto.Base.{
  ℕ, ◌+◌, ◌==◌, ltb, Bool, false, Option, some, none, if◌then◌else◌, Bytes, [], ◌∷◌, length,
  byte_at, be16, be32, ◌>>>◌, bit_and, ◌&&◌, not, ◌*◌,
}
use clatto.Netip.{Addr, zero_addr, v4, v6, addr4_at, addr6_at}
use clatto.Xlate.Events.{Kind, Reason, Event}

abbrev pub ipv4_hdr_len : ℕ
ipv4_hdr_len = 20

abbrev pub ipv6_hdr_len : ℕ
ipv6_hdr_len = 40

abbrev pub frag_hdr_len : ℕ
frag_hdr_len = 8

abbrev pub icmp_hdr_len : ℕ
icmp_hdr_len = 8

abbrev pub mtu_adj : ℕ
mtu_adj = 20

abbrev pub mtu_min : ℕ
mtu_min = 1280

abbrev pub icmp4_max_len : ℕ
icmp4_max_len = 576

abbrev pub ip4_flag_df : ℕ
ip4_flag_df = 0x4000

abbrev pub ip4_flag_mf : ℕ
ip4_flag_mf = 0x2000

abbrev pub ip4_off_mask : ℕ
ip4_off_mask = 0x1fff

abbrev pub ip6_frag_mf : ℕ
ip6_frag_mf = 0x0001

abbrev pub ip6_frag_mask : ℕ
ip6_frag_mask = 0xfff8

abbrev pub proto_icmp : ℕ
proto_icmp = 1

abbrev pub proto_tcp : ℕ
proto_tcp = 6

abbrev pub proto_udp : ℕ
proto_udp = 17

abbrev pub proto_frag : ℕ
proto_frag = 44

abbrev pub proto_icmp6 : ℕ
proto_icmp6 = 58

-- `pkt`. A nil `ip` is the empty list. `payload` is the field `data`. The slice `icmp` is nil or
-- aliases the first eight bytes of `payload`: the flag says which, and what the source reads or
-- writes through it is read from or written to `payload`.
pub record Pkt : Type 0 where
  pub raw : Bytes
  pub ip : Bytes
  pub hdr_len : ℕ
  pub payload : Bytes
  pub proto : ℕ
  pub frag : Option Bytes
  pub icmp : Bool

-- `&pkt{raw: raw}`.
abbrev pub new_pkt : Bytes → Pkt
new_pkt raw = record {
  raw = raw;
  ip = [];
  hdr_len = 0;
  payload = [];
  proto = 0;
  frag = none;
  icmp = false;
}

unfoldable pub family : Pkt → ℕ
family p = byte_at p.raw 0 >>> 4

unfoldable pub event : Pkt → Kind → Reason → Event
unfolding family
event p kind reason =
    if length p.ip == 0
    then record {
      kind = kind;
      reason = reason;
      family = family p;
      proto = p.proto;
      len = length p.raw;
      src = zero_addr;
      dst = zero_addr;
    }
    else if family p == 4
    then record {
      kind = kind;
      reason = reason;
      family = family p;
      proto = p.proto;
      len = p.hdr_len + length p.payload;
      src = v4 (addr4_at p.ip 12);
      dst = v4 (addr4_at p.ip 16);
    }
    else if family p == 6
    then record {
      kind = kind;
      reason = reason;
      family = family p;
      proto = p.proto;
      len = ipv6_hdr_len + p.hdr_len + length p.payload;
      src = v6 (addr6_at p.ip 8);
      dst = v6 (addr6_at p.ip 24);
    }
    else record {
      kind = kind;
      reason = reason;
      family = family p;
      proto = p.proto;
      len = 0;
      src = zero_addr;
      dst = zero_addr;
    }

abbrev pub ip4_total_len : Bytes → ℕ
ip4_total_len h = be16 h 2

abbrev pub ip4_ident : Bytes → ℕ
ip4_ident h = be16 h 4

abbrev pub ip4_flags_off : Bytes → ℕ
ip4_flags_off h = be16 h 6

abbrev pub ip6_ver_tc_fl : Bytes → ℕ
ip6_ver_tc_fl h = be32 h 0

abbrev pub ip6_payload_len : Bytes → ℕ
ip6_payload_len h = be16 h 4

abbrev pub icmp_word : Bytes → ℕ
icmp_word h = be32 h 4

abbrev pub frag_off_flags : Bytes → ℕ
frag_off_flags h = be16 h 2

abbrev pub frag_ident : Bytes → ℕ
frag_ident h = be32 h 4

-- `x & mask != 0`.
abbrev pub has : ℕ → ℕ → Bool
has x mask = not (bit_and x mask == 0)

-- The loop of `estMTU` over a table.
unfoldable pub plateau : Bytes → ℕ → ℕ
plateau [] too_big = 68
plateau (m ∷ table) too_big = if ltb m too_big then m else plateau table too_big

unfoldable pub est_mtu : ℕ → ℕ
unfolding plateau
est_mtu = plateau (65535 ∷ 32000 ∷ 17914 ∷ 8166 ∷ 4352 ∷ 2002 ∷ 1492 ∷ 1006 ∷ 508 ∷ 296 ∷ [])
