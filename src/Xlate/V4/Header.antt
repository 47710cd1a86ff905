-- ===== src/Xlate/V4/Header.antt =====
-- `header4to6`.
use clatto.Base.{
  ℕ, ◌==◌, if◌then◌else◌, ◌∷◌, ◌++◌, Bytes, byte_at, bytes16, bytes32, u16, ◌<<<◌, bit_or, set,
  dec8,
}
use clatto.Netutil.{Addr6}
use clatto.Netip.{bytes6}
use clatto.Xlate.Packet.{Pkt, proto_icmp, proto_icmp6}

-- The 40 bytes that it fills.
unfoldable pub header4to6 : Pkt → ℕ → Addr6 → Addr6 → Bytes
header4to6 p payload_len src6 dst6 =
    bytes32 (bit_or (6 <<< 28) (byte_at p.ip 1 <<< 20))
    ++ (bytes16 (u16 payload_len)
        ++ (if p.proto == proto_icmp then proto_icmp6 else p.proto)
          ∷ byte_at p.ip 8
          ∷ (bytes6 src6 ++ bytes6 dst6))

-- `h[7]--`, the hop limit.
abbrev pub dec_hop_limit : Bytes → Bytes
dec_hop_limit h = set h 7 (dec8 (byte_at h 7))
