-- ===== src/Xlate/V6/Icmp.antt =====
-- The ICMPv6 messages that the translator sends itself.
use clatto.Base.{
  ℕ, ◌+◌, ◌-◌, min, ◌==◌, ◌&&◌, not, if◌then◌else◌, ◌∷◌, ◌++◌, Bytes, length, byte_at, take, drop,
  slice, bytes16, bytes32, put16, u8, u16, ◌<<<◌, ◌>>>◌, bit_or,
}
use clatto.Netip.{bytes6}
use clatto.Xlate.Checksum.{checksum, pseudo6}
use clatto.Xlate.Events.{Reason, Kind}
use clatto.Xlate.Packet.{
  Pkt, icmp_word, ip6_ver_tc_fl, ipv6_hdr_len, icmp_hdr_len, mtu_min, proto_icmp6,
}
use clatto.Xlate.Translator.{Translator, Env, Act, send, observe, done, ◌>>=◌, ◌>>◌}
use clatto.Xlate.V4.Icmp.{icmp_body}

-- The header of `sendICMPv6`, for a payload of `len` bytes.
abbrev pub icmp6_header : ℕ → ℕ → Bytes → Bytes → Bytes
icmp6_header tc len src dst =
    bytes32 (bit_or (6 <<< 28) (tc <<< 20))
    ++ (bytes16 (u16 (icmp_hdr_len + len)) ++ proto_icmp6 ∷ 64 ∷ (take 16 src ++ take 16 dst))

-- What `sendICMPv6` writes.
unfoldable pub icmp6_packet : ℕ → Bytes → Bytes → ℕ → ℕ → ℕ → Bytes → Bytes
icmp6_packet tc src dst typ code word payload =
    let n = ipv6_hdr_len + icmp_hdr_len + length payload in
    let h = icmp6_header tc (length payload) src dst in
    let ic = icmp_body typ code word payload in
    h
    ++ put16 ic 2
        (checksum ic (pseudo6 (slice 8 24 h) (slice 24 40 h) (n - ipv6_hdr_len) proto_icmp6))

module _ {S : Type 0} (env : Env S) where
  unfoldable pub send_icmp6 : ℕ → Bytes → Bytes → ℕ → ℕ → ℕ → Bytes → Act S
  send_icmp6 tc src dst typ code word payload = do
    _ ← send env (icmp6_packet tc src dst typ code word payload)
    done

  unfoldable pub send_icmp6_error : Translator → ℕ → ℕ → ℕ → Pkt → Act S
  send_icmp6_error t typ code word orig =
      if orig.proto == proto_icmp6 && not (byte_at orig.payload 0 == 128)
      then done
      else (let n =
            min (ipv6_hdr_len + orig.hdr_len + length orig.payload)
              (mtu_min - ipv6_hdr_len - icmp_hdr_len) in
          send_icmp6 0 (bytes6 t.local6) (slice 8 24 orig.ip) typ code word (take n orig.raw))

  unfoldable pub host_icmp6 : Pkt → Act S
  host_icmp6 p =
      if byte_at p.payload 0 == 128
      then (do
        observe p Kind.self Reason.echo_request
        send_icmp6 (u8 (ip6_ver_tc_fl p.ip >>> 20)) (slice 24 40 p.ip) (slice 8 24 p.ip) 129
            (byte_at p.payload 1) (icmp_word p.payload) (drop icmp_hdr_len p.payload))
      else observe p Kind.self Reason.self_unknown_icmp_type
