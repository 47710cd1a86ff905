-- ===== src/Xlate/Packet/Parse4.antt =====
-- `parseIPv4` of internal/xlate/packet.go.
use clatto.Base.{
  ◌+◌, ◌*◌, ◌==◌, ltb, Bool, true, false, not, ◌||◌, ◌&&◌, if◌then◌else◌, Bytes, length, byte_at,
  take, slice, bit_and, ◌>>>◌, min,
}
use clatto.Netutil.{Addr4, classify4, invalid}
use clatto.Netip.{addr4_at}
use clatto.Xlate.Events.{Reason}
use clatto.Xlate.Packet.{
  Pkt, has, ip4_total_len, ip4_flags_off, ipv4_hdr_len, icmp_hdr_len, proto_icmp, ip4_off_mask,
  ip4_flag_mf,
}

-- `netutil.ClassifyIPv4(a) == netutil.IPv4Invalid`.
unfoldable pub is_invalid4 : Addr4 → Bool
is_invalid4 a = elim (classify4 a) [ invalid ↦ true | _ ↦ false ]

-- The checks of the header.
unfoldable pub bad_header4 : Bytes → Bool
bad_header4 raw =
    let ihl = bit_and (byte_at raw 0) 0x0f * 4 in
    not (byte_at raw 0 >>> 4 == 4)
    || ltb ihl ipv4_hdr_len
    || ltb (length raw) ihl
    || ltb (ip4_total_len raw) ihl
    || is_invalid4 (addr4_at raw 12)
    || is_invalid4 (addr4_at raw 16)

-- The switch on the protocol.
unfoldable pub check_proto4 : Pkt → Pkt × Reason
check_proto4 p =
    let fo = ip4_flags_off p.raw in
    if p.proto == proto_icmp
    then (if has fo 0x3fff
        then (p, Reason.icmp_fragmented)
        else if ltb (length p.payload) icmp_hdr_len
        then (p, Reason.icmp_header_length)
        else (record p { icmp = true }, Reason.none))
    else if p.proto == 0 || p.proto == 43 || p.proto == 44 || p.proto == 58 || p.proto == 60
    then (p, Reason.ipv6_only_proto)
    else if has fo ip4_flag_mf && has (length p.payload) 7
    then (p, Reason.fragment_misaligned)
    else if ltb 65535 (bit_and fo ip4_off_mask * 8 + length p.payload)
    then (p, Reason.fragment_too_long)
    else (p, Reason.none)

unfoldable pub parse_ipv4 : Pkt → Pkt × Reason
parse_ipv4 p =
    let ihl = bit_and (byte_at p.raw 0) 0x0f * 4 in
    if ltb (length p.raw) ipv4_hdr_len
    then (p, Reason.ip_header_length)
    else if bad_header4 p.raw
    then (
      record p { ip = take ipv4_hdr_len p.raw; hdr_len = ipv4_hdr_len },
      Reason.ip_header_invalid,
    )
    else check_proto4 (record p {
      ip = take ihl p.raw;
      hdr_len = ihl;
      payload = slice ihl (min (length p.raw) (ip4_total_len p.raw)) p.raw;
      proto = byte_at p.raw 9;
    })
