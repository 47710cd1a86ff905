-- ===== src/Xlate/V4/Payload.antt =====
-- `payload4to6`.
use clatto.Base.{
  ℕ, ◌+◌, ◌-◌, ◌*◌, ◌==◌, ltb, if◌then◌else◌, Bytes, length, byte_at, slice, set, be16, put16,
  not16, u64,
}
use clatto.Xlate.Checksum.{sum16, fold, checksum, adjust, pseudo6, nonzero}
use clatto.Xlate.Events.{Reason}
use clatto.Xlate.Packet.{
  Pkt, has, ip4_flags_off, ip4_total_len, ip4_off_mask, proto_icmp, proto_icmp6, proto_udp,
  proto_tcp,
}
use clatto.Xlate.Translator.{Translator, UdpChecksumMode}

abbrev pub with_payload : Pkt → Bytes → Pkt
with_payload p b = record p { payload = b }

-- The ICMP echo header: the type changes, and a pseudo-header joins the sum.
unfoldable pub echo4to6 : Pkt → Bytes → Bytes
echo4to6 p h =
    let ps = pseudo6 (slice 8 24 h) (slice 24 40 h) (ip4_total_len p.ip - p.hdr_len) proto_icmp6 in
    let old = be16 p.payload 2 in
    let typ = if byte_at p.payload 0 == 8 then 128 else 129 in
    let delta = if byte_at p.payload 0 == 8 then (128 - 8) * 256 else 129 * 256 in
    put16 (set p.payload 0 typ) 2 (not16 (fold (u64 (not16 old + ps + delta))))

-- The update of a checksum field at `off` for the new addresses.
unfoldable pub update4to6 : Pkt → Bytes → ℕ → ℕ
update4to6 p h off =
    adjust (be16 p.payload off) (sum16 (slice 12 20 p.ip) 0) (sum16 (slice 8 40 h) 0)

unfoldable pub zero_udp4to6 : UdpChecksumMode → Pkt → Bytes → Pkt × Reason
zero_udp4to6 UdpChecksumMode.forward p h = (p, Reason.none)
zero_udp4to6 UdpChecksumMode.calc p h = (
  with_payload p (
      put16 p.payload 6 (
        nonzero (
          checksum p.payload
            (pseudo6 (slice 8 24 h) (slice 24 40 h) (length p.payload) proto_udp)))),
  Reason.none,
)
zero_udp4to6 UdpChecksumMode.drop p h = (p, Reason.udp_zero_checksum)

-- The packet with its transport header rewritten for the IPv6 header `h`.
unfoldable pub payload4to6 : Translator → Pkt → Bytes → Pkt × Reason
payload4to6 t p h =
    if has (ip4_flags_off p.ip) ip4_off_mask
    then (p, Reason.none)
    else if p.proto == proto_icmp
    then (with_payload p (echo4to6 p h), Reason.none)
    else if p.proto == proto_udp
    then (if ltb (length p.payload) 8
        then (p, Reason.udp_header_length)
        else if be16 p.payload 6 == 0
        then zero_udp4to6 t.cfg.udp_checksum p h
        else (with_payload p (put16 p.payload 6 (nonzero (update4to6 p h 6))), Reason.none))
    else if p.proto == proto_tcp
    then (if ltb (length p.payload) 20
        then (p, Reason.tcp_header_length)
        else (with_payload p (put16 p.payload 16 (update4to6 p h 16)), Reason.none))
    else (p, Reason.none)
