-- ===== src/Xlate/V6/Handle.antt =====
-- `handleIPv6`: the entry point.
use clatto.Base.{ℕ, ◌+◌, ◌==◌, if◌then◌else◌, not, ◌&&◌, ◌||◌, Bytes, length, byte_at, slice}
use clatto.Netip.{addr6_at, eq6}
use clatto.Xlate.Checksum.{verify, pseudo6}
use clatto.Xlate.Events.{Reason, Kind, is_none}
use clatto.Xlate.Packet.{Pkt, new_pkt, ip6_payload_len, proto_icmp6}
use clatto.Xlate.Packet.Parse6.{parse_ipv6}
use clatto.Xlate.Translator.{Translator, Env, Act, observe, done, ◌>>◌}
use clatto.Xlate.V6.Icmp.{send_icmp6_error, host_icmp6}
use clatto.Xlate.V6.Errors.{xlate6to4_icmp_error}
use clatto.Xlate.V6.Data.{xlate6to4_data}

module _ {S : Type 0} (env : Env S) (t : Translator) where
  -- A packet that has passed the checks: for the translator itself, expired, or to translate.
  unfoldable pub route6 : Pkt → Act S
  route6 p =
      if eq6 (addr6_at p.ip 24) t.local6
      then (if p.proto == proto_icmp6
          then host_icmp6 env p
          else (do observe p Kind.reject Reason.self_unknown_proto; send_icmp6_error env t 4 1 6 p))
      else if byte_at p.ip 7 == 1
      then (do observe p Kind.icmp Reason.time_exceeded; send_icmp6_error env t 3 0 0 p)
      else if not (p.proto == proto_icmp6)
          || byte_at p.payload 0 == 128
          || byte_at p.payload 0 == 129
      then xlate6to4_data env t p
      else xlate6to4_icmp_error env t p

  -- What is told of a packet that does not parse.
  unfoldable pub refuse6 : Pkt → Reason → ℕ → Act S
  refuse6 p Reason.routing_header_segments_left seg_ptr = do
    observe p Kind.reject Reason.routing_header_segments_left
    send_icmp6_error env t 4 0 seg_ptr p
  refuse6 p r seg_ptr = observe p Kind.drop r

  -- `p.icmp` with the checksum that does not verify.
  unfoldable pub handle_ipv6 : Bytes → Act S
  handle_ipv6 raw =
      let parsed = parse_ipv6 (new_pkt raw) in
      let p = parsed.pkt in
      if not (is_none parsed.reason)
      then (if parsed.silent then done else refuse6 p parsed.reason parsed.seg_ptr)
      else if byte_at p.ip 7 == 0 || not (p.hdr_len + length p.payload == ip6_payload_len p.ip)
      then observe p Kind.drop Reason.ip_header_invalid
      else if p.icmp
          && not (
              verify p.payload
                (pseudo6 (slice 8 24 p.ip) (slice 24 40 p.ip) (length p.payload) proto_icmp6))
      then observe p Kind.drop Reason.icmp_checksum_invalid
      else route6 p
