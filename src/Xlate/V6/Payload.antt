-- ===== src/Xlate/V6/Payload.antt =====
-- `payload6to4`.
use clatto.Base.{
  ℕ, ◌+◌, ◌-◌, ◌*◌, ◌==◌, ltb, if◌then◌else◌, Bool, false, Bytes, length, byte_at, slice, set, be16,
  put16, not16, u64, some, none,
}
use clatto.Xlate.Checksum.{sum16, fold, checksum, adjust, pseudo4, pseudo6, nonzero}
use clatto.Xlate.Events.{Reason}
use clatto.Xlate.Packet.{
  Pkt, has, ip6_payload_len, frag_off_flags, ip6_frag_mask, proto_icmp6, proto_udp, proto_tcp,
}
use clatto.Xlate.Translator.{Translator, UdpChecksumMode}
use clatto.Xlate.V4.Payload.{with_payload}

unfoldable pub echo6to4 : Pkt → Bytes
echo6to4 p =
    let ps =
      pseudo6 (slice 8 24 p.ip) (slice 24 40 p.ip) (ip6_payload_len p.ip - p.hdr_len) proto_icmp6 in
    let old = be16 p.payload 2 in
    let typ = if byte_at p.payload 0 == 128 then 8 else 0 in
    let delta = if byte_at p.payload 0 == 128 then (128 - 8) * 256 else 129 * 256 in
    put16 (set p.payload 0 typ) 2 (not16 (fold (u64 (not16 old + not16 (fold ps) + not16 delta))))

unfoldable pub update6to4 : Pkt → Bytes → ℕ → ℕ
update6to4 p h off =
    adjust (be16 p.payload off) (sum16 (slice 8 40 p.ip) 0) (sum16 (slice 12 20 h) 0)

unfoldable pub zero_udp6to4 : UdpChecksumMode → Pkt → Bytes → Pkt × Reason
zero_udp6to4 UdpChecksumMode.forward p h = (p, Reason.none)
zero_udp6to4 UdpChecksumMode.calc p h = (
  with_payload p (
      put16 p.payload 6 (
        nonzero (
          checksum p.payload
            (pseudo4 (slice 12 16 h) (slice 16 20 h) (length p.payload) proto_udp)))),
  Reason.none,
)
zero_udp6to4 UdpChecksumMode.drop p h = (p, Reason.udp_zero_checksum)

-- `p.frag != nil && fragOffFlags(p.frag)&ip6FragMask != 0`: a fragment other than the first.
unfoldable pub later_fragment : Pkt → Bool
later_fragment p = elim p.frag [ none ↦ false | some f ↦ has (frag_off_flags f) ip6_frag_mask ]

-- The packet with its transport header rewritten for the IPv4 header `h`.
unfoldable pub payload6to4 : Translator → Pkt → Bytes → Pkt × Reason
payload6to4 t p h =
    if later_fragment p
    then (p, Reason.none)
    else if p.proto == proto_icmp6
    then (with_payload p (echo6to4 p), Reason.none)
    else if p.proto == proto_udp
    then (if ltb (length p.payload) 8
        then (p, Reason.udp_header_length)
        else if be16 p.payload 6 == 0
        then zero_udp6to4 t.cfg.udp_checksum p h
        else (with_payload p (put16 p.payload 6 (nonzero (update6to4 p h 6))), Reason.none))
    else if p.proto == proto_tcp
    then (if ltb (length p.payload) 20
        then (p, Reason.tcp_header_length)
        else (with_payload p (put16 p.payload 16 (update6to4 p h 16)), Reason.none))
    else (p, Reason.none)
