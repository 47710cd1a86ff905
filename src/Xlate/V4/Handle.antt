-- ===== src/Xlate/V4/Handle.antt =====
-- `handleIPv4`: the entry point.
use clatto.Base.{◌+◌, ◌==◌, if◌then◌else◌, not, ◌&&◌, ◌||◌, Bytes, length, byte_at}
use clatto.Netutil.{eq4}
use clatto.Netip.{addr4_at}
use clatto.Xlate.Checksum.{verify}
use clatto.Xlate.Events.{Reason, Kind, is_none}
use clatto.Xlate.Packet.{Pkt, new_pkt, ip4_total_len, proto_icmp}
use clatto.Xlate.Packet.Parse4.{parse_ipv4}
use clatto.Xlate.Translator.{Translator, Env, Act, observe, ◌>>◌}
use clatto.Xlate.V4.Icmp.{send_icmp4_error, host_icmp4}
use clatto.Xlate.V4.Errors.{xlate4to6_icmp_error}
use clatto.Xlate.V4.Fragments.{xlate4to6_data}

module _ {S : Type 0} (env : Env S) (t : Translator) where
  -- A packet that has passed the checks: for the translator itself, expired, or to translate.
  unfoldable pub route4 : Pkt → Act S
  route4 p =
      if eq4 (addr4_at p.ip 16) t.local4
      then (if p.proto == proto_icmp
          then host_icmp4 env p
          else (do observe p Kind.reject Reason.self_unknown_proto; send_icmp4_error env t 3 2 0 p))
      else if byte_at p.ip 8 == 1
      then (do observe p Kind.icmp Reason.time_exceeded; send_icmp4_error env t 11 0 0 p)
      else if not (p.proto == proto_icmp) || byte_at p.payload 0 == 8 || byte_at p.payload 0 == 0
      then xlate4to6_data env t p
      else xlate4to6_icmp_error env t p

  unfoldable pub handle_ipv4 : Bytes → Act S
  handle_ipv4 raw =
      let parsed = parse_ipv4 (new_pkt raw) in
      let p = parsed.0 in
      if not (is_none parsed.1)
      then observe p Kind.drop parsed.1
      else if byte_at p.ip 8 == 0
          || not (verify p.ip 0)
          || not (p.hdr_len + length p.payload == ip4_total_len p.ip)
      then observe p Kind.drop Reason.ip_header_invalid
      else if p.icmp && not (verify p.payload 0)
      then observe p Kind.drop Reason.icmp_checksum_invalid
      else route4 p
