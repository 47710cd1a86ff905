-- ===== src/Xlate/V4/Icmp.antt =====
-- The ICMPv4 messages that the translator sends itself.
use clatto.Base.{
  ℕ, ◌+◌, ◌-◌, min, ◌==◌, ◌&&◌, not, if◌then◌else◌, ◌∷◌, ◌++◌, Bytes, length, byte_at, take, drop,
  slice, bytes16, bytes32, put16, u16,
}
use clatto.Netip.{bytes4}
use clatto.Xlate.Checksum.{checksum}
use clatto.Xlate.Events.{Reason, Kind}
use clatto.Xlate.Packet.{Pkt, icmp_word, ipv4_hdr_len, icmp_hdr_len, icmp4_max_len, proto_icmp}
use clatto.Xlate.Translator.{Translator, Env, Act, send, observe, done, ◌>>=◌, ◌>>◌}

-- The header of `sendICMPv4`, its checksum zero.
abbrev pub icmp4_header : ℕ → ℕ → Bytes → Bytes → Bytes
icmp4_header tos n src dst =
    0x45
    ∷ tos
    ∷ (bytes16 (u16 n) ++ 0 ∷ 0 ∷ 0 ∷ 0 ∷ 64 ∷ proto_icmp ∷ 0 ∷ 0 ∷ (take 4 src ++ take 4 dst))

-- The message, its checksum zero.
abbrev pub icmp_body : ℕ → ℕ → ℕ → Bytes → Bytes
icmp_body typ code word payload = typ ∷ code ∷ 0 ∷ 0 ∷ (bytes32 word ++ payload)

-- What `sendICMPv4` writes.
unfoldable pub icmp4_packet : ℕ → Bytes → Bytes → ℕ → ℕ → ℕ → Bytes → Bytes
icmp4_packet tos src dst typ code word payload =
    let h = icmp4_header tos (ipv4_hdr_len + icmp_hdr_len + length payload) src dst in
    let ic = icmp_body typ code word payload in
    put16 h 10 (checksum h 0) ++ put16 ic 2 (checksum ic 0)

module _ {S : Type 0} (env : Env S) where
  unfoldable pub send_icmp4 : ℕ → Bytes → Bytes → ℕ → ℕ → ℕ → Bytes → Act S
  send_icmp4 tos src dst typ code word payload = do
    _ ← send env (icmp4_packet tos src dst typ code word payload)
    done

  unfoldable pub send_icmp4_error : Translator → ℕ → ℕ → ℕ → Pkt → Act S
  send_icmp4_error t typ code word orig =
      if orig.proto == proto_icmp && not (byte_at orig.payload 0 == 8)
      then done
      else (let n =
            min (orig.hdr_len + length orig.payload)
              (icmp4_max_len - ipv4_hdr_len - icmp_hdr_len) in
          send_icmp4 0 (bytes4 t.local4) (slice 12 16 orig.ip) typ code word (take n orig.raw))

  unfoldable pub host_icmp4 : Pkt → Act S
  host_icmp4 p =
      if byte_at p.payload 0 == 8
      then (do
        observe p Kind.self Reason.echo_request
        send_icmp4 (byte_at p.ip 1) (slice 16 20 p.ip) (slice 12 16 p.ip) 0 (byte_at p.payload 1)
            (icmp_word p.payload) (drop icmp_hdr_len p.payload))
      else observe p Kind.self Reason.self_unknown_icmp_type
